-- ===== src/Board/Radio/Priority.antt =====
-- tasks/lora_task_base.rs: what overtakes a selected envelope is the most urgent that waits.
use l_comboard.Base.{
  ℕ, ◌≡◌, refl, sym, ap, ◌∙◌, Bool, true, false, ◌&&◌, Option, none, some, List, [], ◌∷◌, All,
  arith, arith,
}
use l_comboard.Lora.Scheduler.{LoRaTxSource, is_higher_priority, priority}
use l_comboard.Board.Channel.{Channels, IsFifo}
use l_comboard.Board.Downlink.{Downlink, LoRaTxEnvelope}
use l_comboard.Board.Radio.{Taken, attempt, from_log, take_log, take_higher_priority_envelope}

abbrev pub HasSource : LoRaTxSource → Option LoRaTxEnvelope → Type 0
HasSource source none = Unit
HasSource source (some e) = e.source ≡ source

module _ ⦃ch : Channels⦄ where
  -- Each queue holds envelopes of its own source.
  pub record HasSources (d : Downlink) : Type 0 where
    pub emergency :
        All (λ e. e.source ≡ LoRaTxSource.emergency_result) (ch.contents d.emergency_results)
    pub results : All (λ e. e.source ≡ LoRaTxSource.command_result) (ch.contents d.command_results)
    pub ground :
        All (λ e. e.source ≡ LoRaTxSource.ground_time_request) (ch.contents d.ground_time_requests)
    pub log : All (λ e. e.source ≡ LoRaTxSource.recovery) (ch.contents d.recovery_frames)

  no_some : {A : Type 0} {a : A} → some a ≡ none → ⊥
  no_some h = cc

  some_value : {A : Type 0} {a b : A} → some a ≡ some b → a ≡ b
  some_value h = cc

  some_first :
      {A B : Type 0} {a c : A} {b d : B}
      → ◌≡◌ {A = Option (A × B)} (some (a, b)) (some (c, d))
      → a ≡ c
  some_first h = cc

  received_next :
      (c : ch.Channel LoRaTxEnvelope) (e : LoRaTxEnvelope) (q : ch.Channel LoRaTxEnvelope)
      (xs : List LoRaTxEnvelope) (source : LoRaTxSource)
      → IsFifo ch
      → ch.contents c ≡ xs
      → All (λ e. e.source ≡ source) xs
      → ch.try_receive c ≡ some (e, q)
      → e.source ≡ source
  received_next c e q [] source fifo h a r = absurd (no_some (sym r ∙ fifo.receive_empty c h))
  received_next c e q (x ∷ xs) source fifo h a r =
      let (c', n, _, _) = fifo.receive_next c x xs h in
      ap (λ (e : LoRaTxEnvelope). e.source) (some_first (sym r ∙ n)) ∙ a.0

  received_none :
      (c : ch.Channel LoRaTxEnvelope) (xs : List LoRaTxEnvelope)
      → IsFifo ch
      → ch.contents c ≡ xs
      → ch.try_receive c ≡ none
      → ch.contents c ≡ []
  received_none c [] fifo h r = h
  received_none c (x ∷ xs) fifo h r =
      let (c', n, _, _) = fifo.receive_next c x xs h in absurd (no_some (sym n ∙ r))

  -- The envelope has a higher priority than the selected source, and nothing with a higher priority
  -- than it waits.
  abbrev pub IsMostUrgent : Downlink → LoRaTxSource → LoRaTxEnvelope → Type 0
  IsMostUrgent d selected e =
      (is_higher_priority e.source selected ≡ true)
      × (is_higher_priority LoRaTxSource.emergency_result e.source ≡ true
          → ch.contents d.emergency_results ≡ [])
      × (is_higher_priority LoRaTxSource.command_result e.source ≡ true
          → ch.contents d.command_results ≡ [])
      × (is_higher_priority LoRaTxSource.ground_time_request e.source ≡ true
          → ch.contents d.ground_time_requests ≡ [])

  attempt_lem :
      (b : Bool) (c : ch.Channel LoRaTxEnvelope)
      (o : Option (LoRaTxEnvelope × ch.Channel LoRaTxEnvelope))
      (keep : ch.Channel LoRaTxEnvelope → Downlink) (pending : Option LoRaTxEnvelope) (rest : Taken)
      (P : LoRaTxEnvelope → Type 0) (e : LoRaTxEnvelope)
      → IsFifo ch
      → ch.try_receive c ≡ o
      → ((q : ch.Channel LoRaTxEnvelope) → b ≡ true → ch.try_receive c ≡ some (e, q) → P e)
      → ((b ≡ true → ch.contents c ≡ []) → rest.0 ≡ some e → P e)
      → (attempt b o keep pending rest).0 ≡ some e
      → P e
  attempt_lem false c o keep pending rest P e fifo r hit miss h = miss (λ x. absurd cc) h
  attempt_lem true c none keep pending rest P e fifo r hit miss h =
      miss (λ _. received_none c _ fifo refl r) h
  attempt_lem true c (some (x, q)) keep pending rest P e fifo r hit miss h =
      hit q refl (r ∙ ap (λ o. some (o, q)) (some_value h))

  first :
      (d : Downlink) (e : LoRaTxEnvelope) (selected : LoRaTxSource)
      → is_higher_priority LoRaTxSource.emergency_result selected ≡ true
      → e.source ≡ LoRaTxSource.emergency_result
      → IsMostUrgent d selected e
  unfolding is_higher_priority priority
  first d e selected b s = ground (arith, s)

  second :
      (d : Downlink) (e : LoRaTxEnvelope) (selected : LoRaTxSource)
      → is_higher_priority LoRaTxSource.command_result selected ≡ true
      → e.source ≡ LoRaTxSource.command_result
      → (is_higher_priority LoRaTxSource.emergency_result selected ≡ true
          → ch.contents d.emergency_results ≡ [])
      → IsMostUrgent d selected e
  unfolding is_higher_priority priority
  second d e selected b s n = ground (arith, s)

  third :
      (d : Downlink) (e : LoRaTxEnvelope) (selected : LoRaTxSource)
      → is_higher_priority LoRaTxSource.ground_time_request selected ≡ true
      → e.source ≡ LoRaTxSource.ground_time_request
      → (is_higher_priority LoRaTxSource.emergency_result selected ≡ true
          → ch.contents d.emergency_results ≡ [])
      → (is_higher_priority LoRaTxSource.command_result selected ≡ true
          → ch.contents d.command_results ≡ [])
      → IsMostUrgent d selected e
  unfolding is_higher_priority priority
  third d e selected b s n m = ground (arith, s)

  fourth :
      (d : Downlink) (e : LoRaTxEnvelope) (selected : LoRaTxSource)
      → is_higher_priority LoRaTxSource.recovery selected ≡ true
      → e.source ≡ LoRaTxSource.recovery
      → (is_higher_priority LoRaTxSource.emergency_result selected ≡ true
          → ch.contents d.emergency_results ≡ [])
      → (is_higher_priority LoRaTxSource.command_result selected ≡ true
          → ch.contents d.command_results ≡ [])
      → (is_higher_priority LoRaTxSource.ground_time_request selected ≡ true
          → ch.contents d.ground_time_requests ≡ [])
      → IsMostUrgent d selected e
  unfolding is_higher_priority priority
  fourth d e selected b s n m k = ground (arith, s)

  from_log-source :
      (d : Downlink) (o : Option (LoRaTxEnvelope × ch.Channel LoRaTxEnvelope)) (e : LoRaTxEnvelope)
      → IsFifo ch
      → HasSources d
      → ch.try_receive d.recovery_frames ≡ o
      → (from_log d o).0 ≡ some e
      → e.source ≡ LoRaTxSource.recovery
  from_log-source d none e fifo h r x = absurd cc
  from_log-source d (some (a, q)) e fifo h r x =
      received_next d.recovery_frames e q _ LoRaTxSource.recovery fifo refl h.log
        (r ∙ ap (λ o. some (o, q)) (some_value x))

  take_log-source :
      (a : Bool) (d : Downlink) (pending : Option LoRaTxEnvelope) (e : LoRaTxEnvelope)
      → IsFifo ch
      → HasSources d
      → HasSource LoRaTxSource.recovery pending
      → (take_log a d pending).0 ≡ some e
      → (a ≡ true) × (e.source ≡ LoRaTxSource.recovery)
  unfolding take_log
  take_log-source false d pending e fifo h p x = absurd cc
  take_log-source true d (some a) e fifo h p x =
      (refl, ap (λ (e : LoRaTxEnvelope). e.source) (sym (some_value x)) ∙ p)
  take_log-source true d none e fifo h p x = (refl, from_log-source d _ e fifo h refl x)

  and_left : (a b : Bool) → (a && b) ≡ true → a ≡ true
  and_left true b h = refl
  and_left false b h = h

  -- Where each queue holds the envelopes of its own source, and the envelope kept for later is of the
  -- log, what overtakes a selected envelope has a higher priority than that, and no queue whose priority is
  -- higher still has an envelope waiting.
  pub take_higher_priority_envelope_lem :
      (d : Downlink) (selected : LoRaTxSource) (sent : Bool) (next_recovery_at : ℕ) (valid : Bool)
      (next_periodic_at : ℕ) (pending : Option LoRaTxEnvelope) (now : ℕ) (e : LoRaTxEnvelope)
      → IsFifo ch
      → HasSources d
      → HasSource LoRaTxSource.recovery pending
      → (take_higher_priority_envelope d selected sent next_recovery_at valid next_periodic_at
          pending now).0
        ≡ some e
      → IsMostUrgent d selected e
  unfolding take_higher_priority_envelope
  take_higher_priority_envelope_lem d selected sent next_recovery_at valid next_periodic_at pending
        now e fifo h p =
      let P : LoRaTxEnvelope → Type 0 = λ e. IsMostUrgent d selected e in
      attempt_lem _ d.emergency_results _ _ pending _ P e fifo refl
        (λ q b r. first d e selected b (received_next _ e q _ _ fifo refl h.emergency r))
        (λ n.
          attempt_lem _ d.command_results _ _ pending _ P e fifo refl
            (λ q b r. second d e selected b (received_next _ e q _ _ fifo refl h.results r) n)
            (λ m.
              attempt_lem _ d.ground_time_requests _ _ pending _ P e fifo refl
                (λ q b r. third d e selected b (received_next _ e q _ _ fifo refl h.ground r) n m)
                (λ k x.
                  let (a, s) = take_log-source _ d pending e fifo h p x in
                  fourth d e selected (and_left _ _ a) s n m k)))
