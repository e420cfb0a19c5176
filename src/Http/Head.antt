-- ===== src/Http/Head.antt =====
-- src/http.cpp: `read_headers`.
use haiku_mgmt_agent.Prelude.{
  ℕ, ◌+◌, ◌*◌, Option, none, some, List, [], ◌∷◌, ◌++◌, if◌then◌else◌, ltb, ◌==◌, length, take,
  drop,
}
use haiku_mgmt_agent.Prelude.Int.{ℤ}
use haiku_mgmt_agent.Prelude.Text.{Bytes, bytes_eq, codes, find, find_byte}
use haiku_mgmt_agent.Util.Text.{trim, split, lower}
use haiku_mgmt_agent.Util.Number.{atoi}
use haiku_mgmt_agent.Http.Transport.{Read, received, closed, timed_out, failed}

abbrev pub Headers : Type 0
Headers = List (Bytes × Bytes)

abbrev pub crlf : Bytes
crlf = b'\r' ∷ b'\n' ∷ []

abbrev pub blank_line : Bytes
blank_line = b'\r' ∷ b'\n' ∷ b'\r' ∷ b'\n' ∷ []

abbrev pub max_head : ℕ
max_head = 256 * 1024

-- `err.empty() ? other : err`
abbrev pub or_else : Bytes → Bytes → Bytes
or_else [] other = other
or_else (c ∷ e) other = c ∷ e

abbrev pub read_timeout : Bytes
read_timeout = codes "read timeout"

-- The buffer with the blank line in it and the reads that are left, or `resp.error`.
pub data HeadRead : Type 0 where
  head_read : Bytes → List Read → HeadRead
  head_failed : Bytes → HeadRead

unfoldable pub read_head : List Read → Bytes → HeadRead
unfolding find
read_head [] buf = elim (find blank_line buf) [
  | some end ↦ head_read buf []
  | none ↦ head_failed (codes "connection closed before headers completed")
]
read_head (r ∷ reads) buf = elim (find blank_line buf) [
  | some end ↦ head_read buf (r ∷ reads)
  | none ↦ elim r [
    | closed ↦ head_failed (codes "connection closed before headers completed")
    | timed_out ↦ head_failed read_timeout
    | failed err ↦ head_failed (or_else err read_timeout)
    | received chunk ↦
        let more = read_head reads (buf ++ chunk) in
        if ltb max_head (length (buf ++ chunk))
        then head_failed (codes "header block too large")
        else more
  ]
]

-- `headers[key] = value`
unfoldable pub drop_header : Bytes → Headers → Headers
drop_header key [] = []
drop_header key ((k, v) ∷ hs) =
    let rest = drop_header key hs in if bytes_eq k key then rest else (k, v) ∷ rest

unfoldable pub set_header : Bytes → Bytes → Headers → Headers
unfolding drop_header
set_header key value hs = (key, value) ∷ drop_header key hs

unfoldable pub find_header : Bytes → Headers → Option Bytes
find_header key [] = none
find_header key ((k, v) ∷ hs) =
    let rest = find_header key hs in if bytes_eq k key then some v else rest

-- `if (!line.empty() && line.back() == '\r') line.pop_back();`
unfoldable pub drop_return : Bytes → Bytes
drop_return [] = []
drop_return (c ∷ []) = if c == b'\r' then [] else c ∷ []
drop_return (c ∷ d ∷ s) = c ∷ drop_return (d ∷ s)

unfoldable pub header_line : Bytes → Headers → Headers
unfolding set_header find_byte
header_line line hs = elim (find_byte b':' line) [
  | none ↦ hs
  | some colon ↦ set_header (lower (trim (take colon line))) (trim (drop (colon + 1) line)) hs
]

unfoldable pub header_lines : List Bytes → Headers → Headers
unfolding header_line drop_return
header_lines [] hs = hs
header_lines (line ∷ more) hs = header_lines more (header_line (drop_return line) hs)

-- The status and the headers, or `resp.error`.
pub data Head : Type 0 where
  head : ℤ → Headers → Head
  malformed : Bytes → Head

unfoldable pub parse_head : List Bytes → Head
unfolding header_lines find_byte
parse_head [] = malformed (codes "empty response")
parse_head (line ∷ more) = elim (find_byte b' ' line) [
  | none ↦ malformed (codes "malformed status line")
  | some sp ↦ head (atoi (drop (sp + 1) line)) (header_lines more [])
]

-- What `read_headers` leaves: the head, the body bytes that came with it and the reads behind.
pub data HeadersRead : Type 0 where
  headers_read : ℤ → Headers → Bytes → List Read → HeadersRead
  headers_failed : Bytes → HeadersRead

unfoldable pub end_of_head : Bytes → ℕ
unfolding find
end_of_head buf = elim (find blank_line buf) [ none ↦ length buf | some end ↦ end ]

unfoldable pub read_headers : List Read → HeadersRead
unfolding read_head parse_head end_of_head
read_headers reads = elim (read_head reads []) [
  | head_failed e ↦ headers_failed e
  | head_read buf rest ↦ elim (parse_head (split (take (end_of_head buf) buf) b'\n')) [
    | malformed e ↦ headers_failed e
    | head status hs ↦ headers_read status hs (drop (end_of_head buf + 4) buf) rest
  ]
]
