-- ===== src/Util/Pieces.antt =====
-- src/util.cpp: what `split`, `join` and `clip` promise.
use haiku_mgmt_agent.Prelude.{
  ℕ, zero, suc, ◌+◌, ◌-◌, ◌≤◌, ◌<◌, ◌≡◌, refl, ◌∙◌, sym, none, some, List, [], ◌∷◌, ◌++◌, arith,
  length, take, drop, All, length-append, length-take, append-nil, inl, inr, drop-append,
  take-append, Option-cases, drop-drop, length-drop,
}
use haiku_mgmt_agent.Prelude.Text.{Bytes, find_byte, find_byte-lt}
use haiku_mgmt_agent.Util.Text.{split_loop, split, join, clip}

-- `clip` never returns more than `max` bytes, leaves a string that fits alone, and what it returns
-- of a longer one is a prefix of it, with the whole suffix behind it where the suffix is shorter
-- than `max`.
pub clip_fits :
    (s suffix : Bytes) (max : ℕ)
    → (length (clip s max suffix) ≤ max)
      × (length s ≤ max → clip s max suffix ≡ s)
      × (max < length s
          → length suffix < max
          → clip s max suffix ≡ take (max - length suffix) s ++ suffix)
unfolding clip
clip_fits s suffix max = (
  ground (
    arith,
    length-take max s,
    length-take (max - length suffix) s,
    length-append (take (max - length suffix) s) suffix,
  ),
  λ h. ground arith,
  λ h k. ground arith,
)

-- Whether a piece holds the separator.
abbrev pub Lacks : ℕ → Bytes → Type 0
Lacks sep s = find_byte sep s ≡ none

find_byte_cut :
    (sep : ℕ) (s : Bytes) (p : ℕ)
    → find_byte sep s ≡ some p
    → (s ≡ take p s ++ (sep ∷ drop (p + 1) s)) × Lacks sep (take p s)
unfolding find_byte
find_byte_cut sep [] p h = cc
find_byte_cut sep (c ∷ s) zero h = ground arith
find_byte_cut sep (c ∷ s) (suc p) h = ground (arith, find_byte_cut sep s p)

split_loop-none :
    (fuel sep : ℕ) (s : Bytes) → find_byte sep s ≡ none → split_loop (suc fuel) sep s ≡ s ∷ []
unfolding split_loop
split_loop-none fuel sep s e = rw (e, split_loop)

split_loop-some :
    (fuel sep : ℕ) (s : Bytes) (p : ℕ)
    → find_byte sep s ≡ some p
    → split_loop (suc fuel) sep s ≡ take p s ∷ split_loop fuel sep (drop (p + 1) s)
unfolding split_loop
split_loop-some fuel sep s p e = rw (e, split_loop)

join-cons :
    (p : Bytes) (ps : List Bytes) (sep : Bytes)
    → 0 < length ps
    → join (p ∷ ps) sep ≡ p ++ (sep ++ join ps sep)
unfolding join
join-cons p [] sep h = absurd (omega arith)
join-cons p (q ∷ ps) sep h = refl

-- What a run of the loop yields: pieces without the separator, at least one, that join to the text.
abbrev IsSplit : ℕ → Bytes → List Bytes → Type 0
IsSplit sep s ps = (join ps (sep ∷ []) ≡ s) × All (Lacks sep) ps × (0 < length ps)

split_loop-IsSplit :
    (fuel sep : ℕ) (s : Bytes) → length s < fuel → IsSplit sep s (split_loop fuel sep s)
split_loop-IsSplit zero sep s h = absurd (omega arith)
split_loop-IsSplit (suc fuel) sep s h = elim (Option-cases (find_byte sep s)) [
  | inl e ↦ rw (split_loop-none fuel sep s e) (unfold join in append-nil s, (e, tt), omega arith)
  | inr (p, e) ↦
      let rest =
        split_loop-IsSplit fuel sep (drop (p + 1) s)
          (omega (arith, length-drop (p + 1) s, find_byte-lt sep s p e)) in
      rw (split_loop-some fuel sep s p e) (
        join-cons (take p s) (split_loop fuel sep (drop (p + 1) s)) (sep ∷ []) rest.2
            ∙ rw rest.0 (sym (find_byte_cut sep s p e).0),
        ((find_byte_cut sep s p e).1, rest.1),
        omega arith,
      )
]

-- `join` undoes `split`: no byte is lost, no piece holds the separator, and there is at least one
-- piece.
pub join-split :
    (s : Bytes) (sep : ℕ)
    → (join (split s sep) (sep ∷ []) ≡ s)
      × All (Lacks sep) (split s sep)
      × (0 < length (split s sep))
unfolding split
join-split s sep = split_loop-IsSplit (length s + 1) sep s (omega arith)

find_byte-append :
    (sep : ℕ) (p rest : Bytes) → Lacks sep p → find_byte sep (p ++ (sep ∷ rest)) ≡ some (length p)
unfolding find_byte
find_byte-append sep [] rest h = ground arith
find_byte-append sep (c ∷ p) rest h = ground (arith, find_byte-append sep p rest)

split_loop-join :
    (fuel sep : ℕ) (p : Bytes) (ps : List Bytes)
    → length (join (p ∷ ps) (sep ∷ [])) < fuel
    → Lacks sep p
    → All (Lacks sep) ps
    → split_loop fuel sep (join (p ∷ ps) (sep ∷ [])) ≡ p ∷ ps
split_loop-join zero sep p ps h hp hps = absurd (omega arith)
split_loop-join (suc fuel) sep p [] h hp hps =
    let whole : join (p ∷ []) (sep ∷ []) ≡ p = unfold join in append-nil p in
    rw whole (split_loop-none fuel sep p hp)
split_loop-join (suc fuel) sep p (q ∷ ps) h hp hps =
    let e = join-cons p (q ∷ ps) (sep ∷ []) (omega arith) in
    let rest = join (q ∷ ps) (sep ∷ []) in
    rw e (
      split_loop-some fuel sep (p ++ (sep ∷ rest)) (length p) (find_byte-append sep p rest hp)
      ∙ ground (
        arith,
        take-append (length p) p (sep ∷ rest) refl,
        drop-drop (length p) 1 (p ++ (sep ∷ rest)),
        drop-append (length p) p (sep ∷ rest) refl,
        e,
        length-append p (sep ∷ rest),
        split_loop-join fuel sep q ps,
      ))

-- `split` undoes `join` on every nonempty list of pieces that do not hold the separator.
pub split-join :
    (p : Bytes) (ps : List Bytes) (sep : ℕ)
    → Lacks sep p
    → All (Lacks sep) ps
    → split (join (p ∷ ps) (sep ∷ [])) sep ≡ p ∷ ps
unfolding split
split-join p ps sep hp hps =
    split_loop-join (length (join (p ∷ ps) (sep ∷ [])) + 1) sep p ps (omega arith) hp hps
