-- ===== src/Board/Radio/Deadlines.antt =====
-- tasks/lora_task_base.rs: the deadlines after an attempt to send.
use l_comboard.Base.{
  ℕ, ◌+◌, ◌≤◌, ◌⊎◌, ◌<◌, ◌≡◌, refl, Bool, true, false, Option, none, some, leb, if◌then◌else◌,
  arith, Option-cases, Bool-cases, inl, inr, ap,
}
use l_comboard.Base.Checked.{◌>>=◌, u64_max}
use l_comboard.Lora.Scheduler.{
  LoRaTxSource, DeadlineAdvance, advance_deadline, recovery_next_eligible_at_us, is_recovery,
}
use l_comboard.Lora.Scheduler.Deadline.{advance_deadline_lem}
use l_comboard.Board.Radio.{
  TxTask, add_periodic_missed_slots, advanced, skip_overdue_periodic_deadlines, stopped_or,
  settle_deadline, after_attempt, attempted, or_max,
}

missed_deadline : (t : TxTask) (n : ℕ) → (add_periodic_missed_slots t n).next_tx_at ≡ t.next_tx_at
unfolding add_periodic_missed_slots
missed_deadline t n = ground arith

settled :
    (t : TxTask) (now : ℕ) (b : Bool) (o : Option DeadlineAdvance)
    → ((a : DeadlineAdvance) → o ≡ some a → now < a.next_deadline_us)
    → t.periodic_deadline_valid ≡ b
    → let t' = (if b then stopped_or t (advanced t o) else (t, 0)).0 in
      t'.periodic_deadline_valid ≡ true → now < t'.next_tx_at
settled t now false o h e v = absurd cc
settled t now true none h e v = absurd cc
settled t now true (some a) h e v =
    rw (missed_deadline (record t { next_tx_at = a.next_deadline_us }) a.missed_slots) (h a refl)

settle_deadline_lem :
    (t : TxTask) (now : ℕ)
    → t.next_tx_at ≤ u64_max
    → (settle_deadline t now).0.periodic_deadline_valid ≡ true
    → now < (settle_deadline t now).0.next_tx_at
unfolding settle_deadline skip_overdue_periodic_deadlines
settle_deadline_lem t now h v =
    settled t now t.periodic_deadline_valid (advance_deadline t.next_tx_at now t.interval_us)
      (λ a e. (advance_deadline_lem t.next_tx_at now t.interval_us a h e).1) refl v

settled_recovery :
    (t : TxTask) (now : ℕ) (b : Bool) (o : Option DeadlineAdvance)
    → (if b then stopped_or t (advanced t o) else (t, 0)).0.next_recovery_at ≡ t.next_recovery_at
unfolding add_periodic_missed_slots
settled_recovery t now false o = refl
settled_recovery t now true none = refl
settled_recovery t now true (some a) = ground arith

-- The instant itself, where the 64 bits of a time and embassy's `Instant` have it, and else the last instant.
abbrev pub IsNext : (ℕ → Option ℕ) → ℕ → ℕ → Type 0
IsNext try_from instant at =
    ((instant ≤ u64_max) × (try_from instant ≡ some instant) × (at ≡ instant))
    ⊎ (((u64_max < instant) ⊎ (try_from instant ≡ none)) × (at ≡ u64_max))

eligible :
    (try_from : ℕ → Option ℕ) (completed : ℕ)
    → ((n m : ℕ) → try_from n ≡ some m → m ≡ n)
    → IsNext try_from
        (completed + 200000)
        (or_max (recovery_next_eligible_at_us completed 200000 >>= try_from))
unfolding recovery_next_eligible_at_us
eligible try_from completed exact = elim (Bool-cases (leb (completed + 200000) u64_max)) [
  | inr e ↦ rw e (inr (inl (ground (arith, e)), refl))
  | inl e ↦ elim (Option-cases (try_from (completed + 200000))) [
    | inl n ↦ rw (e, n) (inr (inr refl, refl))
    | inr (m, n) ↦
        let same = exact (completed + 200000) m n in
        rw (e, n) (inl (ground (arith, e), ap some same, same))
  ]
]

attempted_recovery :
    (try_from : ℕ → Option ℕ) (t : TxTask) (source : LoRaTxSource) (completed : ℕ)
    → ((n m : ℕ) → try_from n ≡ some m → m ≡ n)
    → is_recovery source ≡ true
    → IsNext try_from (completed + 200000) (attempted try_from t source completed).next_recovery_at
attempted_recovery try_from t source completed exact r = rw r (eligible try_from completed exact)

-- After any attempt to send, with the deadline within 64 bits, the next periodic deadline lies ahead
-- as long as there is one. After a frame of the log the next one waits until 200 ms after the end of
-- the attempt, exactly where that instant exists, and where it does not for ever.
pub after_attempt_lem :
    (try_from : ℕ → Option ℕ) (t : TxTask) (source : LoRaTxSource) (completed : ℕ)
    (displaced : Bool) (now : ℕ)
    → ((n m : ℕ) → try_from n ≡ some m → m ≡ n)
    → t.next_tx_at ≤ u64_max
    → let t' = after_attempt try_from t source completed displaced now in
      ((t'.periodic_deadline_valid ≡ false) ⊎ (now < t'.next_tx_at))
      × ((is_recovery source ≡ false) ⊎ IsNext try_from (completed + 200000) t'.next_recovery_at)
unfolding after_attempt settle_deadline skip_overdue_periodic_deadlines
after_attempt_lem try_from t source completed displaced now exact h =
    let t1 = attempted try_from t source completed in
    let t2 = (settle_deadline t1 now).0 in
    (
      elim (Bool-cases t2.periodic_deadline_valid) [
        | inl v ↦ inr (settle_deadline_lem t1 now h v)
        | inr v ↦ inl v
      ],
      elim (Bool-cases (is_recovery source)) [
        | inr r ↦ inl r
        | inl r ↦ inr (
            rw
              (settled_recovery t1 now t.periodic_deadline_valid
                (advance_deadline t.next_tx_at now t.interval_us))
              (attempted_recovery try_from t source completed exact r))
      ],
    )
