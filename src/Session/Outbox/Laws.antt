-- ===== src/Session/Outbox/Laws.antt =====
-- What the retransmission buffer guarantees.
use haiku_mgmt_agent.Prelude.{
  ℕ, suc, List, ◌+◌, ◌≤◌, ◌<◌, ◌≡◌, refl, ap, ◌∙◌, true, false, none, some, [], ◌∷◌, ◌++◌, arith,
  leb, ltb, if◌then◌else◌, length, All, All-append, length-append, Bool-cases, inl, inr,
}
use haiku_mgmt_agent.Prelude.Int.{ℤ, leb_ℤ}
use haiku_mgmt_agent.Prelude.Text.{Bytes}
use haiku_mgmt_agent.Session.Outbox.{
  Entry, Outbox, resend_interval_ms, max_resends, max_buffered, add, ack, Due, due_resend,
}

-- Sequence numbers that rise through the buffer, from above `below`.
abbrev pub Rising : ℤ → Outbox → Type 0
Rising below [] = Unit
Rising below (e ∷ buf) = (leb_ℤ e.seq below ≡ false) × Rising e.seq buf

abbrev pub last_seq : ℤ → Outbox → ℤ
last_seq s [] = s
last_seq s (e ∷ buf) = last_seq e.seq buf

-- What `run_session` keeps of the buffer: rising sequence numbers, at most `kMaxBuffered` entries, and
-- no entry resent more often than `kMaxResends`.
pub record IsOutbox (below : ℤ) (buf : Outbox) : Type 0 where
  pub rising : Rising below buf
  pub bounded : length buf ≤ max_buffered
  pub resent : All (λ e. e.resends ≤ max_resends) buf

-- The frames that are still to be acknowledged at `seq`, by the definition of an acknowledgement.
abbrev pub unacked : Outbox → ℤ → Outbox
unacked [] seq = []
unacked (e ∷ buf) seq = if leb_ℤ e.seq seq then unacked buf seq else e ∷ unacked buf seq

Rising-above :
    (below seq : ℤ) (buf : Outbox)
    → leb_ℤ below seq ≡ false
    → Rising below buf
    → unacked buf seq ≡ buf
Rising-above below seq [] h r = refl
Rising-above below seq (e ∷ buf) h r = ground (arith, Rising-above e.seq seq buf)

-- On a buffer in the order of its sequence numbers, `ack` removes exactly the frames numbered at most
-- `seq`: it stops at the first that is not, and none behind it is.
pub ack-unacked : (below seq : ℤ) (buf : Outbox) → Rising below buf → ack buf seq ≡ unacked buf seq
unfolding ack
ack-unacked below seq [] r = refl
ack-unacked below seq (e ∷ buf) r =
    ground (arith, ack-unacked e.seq seq buf, Rising-above e.seq seq buf)

Rising-append :
    (below seq : ℤ) (buf : Outbox) (f : Bytes) (now : ℕ)
    → Rising below buf
    → leb_ℤ seq (last_seq below buf) ≡ false
    → Rising below (buf ++ (record { seq = seq; frame = f; last_sent_ms = now; resends = 0 } ∷ []))
Rising-append below seq [] f now r h = (h, tt)
Rising-append below seq (e ∷ buf) f now r h = (r.0, Rising-append e.seq seq buf f now r.1 h)

Rising-weaken :
    (low below : ℤ) (buf : Outbox) → leb_ℤ below low ≡ false → Rising below buf → Rising low buf
Rising-weaken low below [] h r = tt
Rising-weaken low below (e ∷ buf) h r = (ground arith, r.1)

Rising-last :
    (below seq : ℤ) (e : Entry) (buf : Outbox)
    → Rising below (e ∷ buf)
    → leb_ℤ seq (last_seq e.seq buf) ≡ false
    → leb_ℤ seq (last_seq below buf) ≡ false
Rising-last below seq e [] r h = ground arith
Rising-last below seq e (x ∷ buf) r h = h

length-add :
    (buf : Outbox) (e : Entry) → length buf < max_buffered → length (buf ++ (e ∷ [])) ≤ max_buffered
unfolding max_buffered
length-add buf e h = omega (arith, length-append buf (e ∷ []))

-- `add` of a frame numbered above all in the buffer keeps the invariant: a full buffer loses its oldest
-- frame first.
add-IsOutbox :
    (below seq : ℤ) (buf : Outbox) (f : Bytes) (now : ℕ)
    → IsOutbox below buf
    → leb_ℤ seq (last_seq below buf) ≡ false
    → IsOutbox below (add buf seq f now)
unfolding add max_buffered
add-IsOutbox below seq [] f now v h = record {
  rising = (h, tt);
  bounded = omega arith;
  resent = (omega arith, tt);
}
add-IsOutbox below seq (e ∷ buf) f now v h = elim (Bool-cases (leb 8192 (suc (length buf)))) [
  | inl full ↦ rw full (record {
    rising =
        Rising-append below seq buf f now (Rising-weaken below e.seq buf v.rising.0 v.rising.1)
          (Rising-last below seq e buf v.rising h);
    bounded = length-add buf _ v.bounded;
    resent = All-append _ buf _ v.resent.1 (omega arith, tt);
  })
  | inr room ↦ rw room (record {
    rising = Rising-append below seq (e ∷ buf) f now v.rising h;
    bounded = length-add (e ∷ buf) _ (ground arith);
    resent = All-append _ (e ∷ buf) _ v.resent (omega arith, tt);
  })
]

ack-Rising : (below seq : ℤ) (buf : Outbox) → Rising below buf → Rising below (ack buf seq)
unfolding ack
ack-Rising below seq [] r = tt
ack-Rising below seq (e ∷ buf) r = elim (Bool-cases (leb_ℤ e.seq seq)) [
  | inl old ↦ rw old (Rising-weaken below e.seq (ack buf seq) r.0 (ack-Rising e.seq seq buf r.1))
  | inr new ↦ rw new r
]

ack_shrinks :
    (buf : Outbox) (seq : ℤ)
    → All (λ e. e.resends ≤ max_resends) buf
    → (length (ack buf seq) ≤ length buf) × All (λ e. e.resends ≤ max_resends) (ack buf seq)
unfolding ack
ack_shrinks [] seq h = (omega arith, tt)
ack_shrinks (e ∷ buf) seq h = elim (Bool-cases (leb_ℤ e.seq seq)) [
  | inl old ↦
      let (short, bounded) = ack_shrinks buf seq h.1 in rw old (omega (arith, short), bounded)
  | inr new ↦ rw new (omega arith, h)
]

due_resend-IsOutbox :
    (below : ℤ) (buf : Outbox) (now : ℕ)
    → IsOutbox below buf
    → IsOutbox below (due_resend buf now).buffer
unfolding due_resend
due_resend-IsOutbox below [] now v = v
due_resend-IsOutbox below (e ∷ buf) now v = elim (Bool-cases (ltb now (e.last_sent_ms + 250))) [
  | inl early ↦ rw early v
  | inr due ↦ rw due (elim (Bool-cases (leb 240 e.resends)) [
    | inl gone ↦ rw gone v
    | inr again ↦
        rw again
          (record { rising = v.rising; bounded = v.bounded; resent = (ground arith, v.resent.1) })
  ])
]

Outbox_invariant :
    (below seq : ℤ) (buf : Outbox) (f : Bytes) (now : ℕ)
    → IsOutbox below buf
    → (leb_ℤ seq (last_seq below buf) ≡ false → IsOutbox below (add buf seq f now))
      × IsOutbox below (ack buf seq)
      × IsOutbox below (due_resend buf now).buffer
Outbox_invariant below seq buf f now v = (
  λ h. add-IsOutbox below seq buf f now v h,
  record {
    rising = ack-Rising below seq buf v.rising;
    bounded =
        let shrinks = ack_shrinks buf seq v.resent in
        let fits = v.bounded in omega (arith, shrinks.0, fits);
    resent = (ack_shrinks buf seq v.resent).1;
  },
  due_resend-IsOutbox below buf now v,
)

resend_once :
    (now : ℕ) (e : Entry) (buf : Outbox)
    → e.last_sent_ms + resend_interval_ms ≤ now
    → e.resends < max_resends
    → due_resend (e ∷ buf) now ≡ record {
      resend = some e.frame;
      dead = false;
      buffer = record e { last_sent_ms = now; resends = e.resends + 1 } ∷ buf;
    }
unfolding due_resend
resend_once now e buf h r = ground arith

-- `due_resend` at a time and then at later ones, with no acknowledgement between them: what the last
-- round gives.
unfoldable pub pump : ℕ → List ℕ → Outbox → Due
pump now [] buf = due_resend buf now
pump now (t ∷ ts) buf = pump t ts (due_resend buf now).buffer

-- Times that are each at least the interval after the one before.
abbrev pub Spaced : ℕ → List ℕ → Type 0
Spaced now [] = Unit
Spaced now (t ∷ ts) = (now + resend_interval_ms ≤ t) × Spaced t ts

pump_dead :
    (ts : List ℕ) (now : ℕ) (e : Entry) (buf : Outbox)
    → e.last_sent_ms + resend_interval_ms ≤ now
    → Spaced now ts
    → e.resends + length ts ≡ max_resends
    → ((pump now ts (e ∷ buf)).dead ≡ true) × ((pump now ts (e ∷ buf)).resend ≡ none)
unfolding pump
pump_dead [] now e buf h apart r = unfold due_resend in ground arith
pump_dead (t ∷ ts) now e buf h apart r =
    let again = resend_once now e buf h (omega arith) in
    let e' = record e { last_sent_ms = now; resends = e.resends + 1 } in
    let ends = pump_dead ts t e' buf apart.0 apart.1 (omega arith) in
    let step : pump now (t ∷ ts) (e ∷ buf) ≡ pump t ts (e' ∷ buf) =
      ap (λ d. pump t ts d.buffer) again in
    (ap (λ d. d.dead) step ∙ ends.0, ap (λ d. d.resend) step ∙ ends.1)

-- Every operation of the buffer keeps its invariant: rising sequence numbers, at most 8192 frames, and
-- no frame resent more than 240 times. `add` is given a number above all that are buffered.
pub Outbox_keeps :
    (below seq : ℤ) (buf : Outbox) (f : Bytes) (now : ℕ)
    → IsOutbox below buf
    → leb_ℤ seq (last_seq below buf) ≡ false
    → IsOutbox below (add buf seq f now)
      × (IsOutbox below (ack buf seq) × IsOutbox below (due_resend buf now).buffer)
Outbox_keeps below seq buf f now v h =
    let kept = Outbox_invariant below seq buf f now v in (kept.0 h, (kept.1, kept.2))

-- A peer that acknowledges nothing is declared dead. Where `due_resend` runs at times that are each at
-- least the resend interval after the one before, the first of them due for the oldest frame, and there
-- are as many rounds behind the first as that frame has resends left, the last round sends nothing
-- and reports the peer dead.
pub pump_silent :
    (ts : List ℕ) (now : ℕ) (e : Entry) (buf : Outbox)
    → e.last_sent_ms + resend_interval_ms ≤ now
    → Spaced now ts
    → e.resends + length ts ≡ max_resends
    → ((pump now ts (e ∷ buf)).dead ≡ true) × ((pump now ts (e ∷ buf)).resend ≡ none)
pump_silent ts now e buf h apart r = pump_dead ts now e buf h apart r
