-- ===== src/Board/Channel.antt =====
-- The channels between the tasks, as state.rs uses those of embassy-sync: the operations are a
-- parameter, and what is relied on of them is `IsFifo`.
use l_comboard.Base.{
  ℕ, ◌≤◌, ◌<◌, ◌≡◌, ◌↔◌, List, [], ◌∷◌, ◌++◌, Bool, true, Option, none, some, length,
}

-- A queue of at most `capacity` values. A value that an awaited `send` still waits to put in counts
-- among the contents.
pub record Channels : Type 1 where
  pub Channel : Type 0 → Type 0
  pub empty : {T : Type 0} → ℕ → Channel T
  pub try_send : {T : Type 0} → Channel T → T → Option (Channel T)
  pub send : {T : Type 0} → Channel T → T → Channel T
  pub try_receive : {T : Type 0} → Channel T → Option (T × Channel T)
  pub is_full : {T : Type 0} → Channel T → Bool
  pub contents : {T : Type 0} → Channel T → List T
  pub capacity : {T : Type 0} → Channel T → ℕ

-- What embassy-sync documents of its channels: a queue in order of arrival, `try_send` fails exactly
-- when the channel is full, and `try_receive` exactly when it is empty.
pub record IsFifo (ch : Channels) : Type 1 where
  pub send_room :
      {T : Type 0} (c : ch.Channel T) (x : T)
      → length (ch.contents c) < ch.capacity c
      → (c' : ch.Channel T) × (ch.try_send c x ≡ some c')
        × (ch.contents c' ≡ ch.contents c ++ x ∷ [])
        × (ch.capacity c' ≡ ch.capacity c)
  pub send_full :
      {T : Type 0} (c : ch.Channel T) (x : T)
      → ch.capacity c ≤ length (ch.contents c)
      → ch.try_send c x ≡ none
  pub receive_next :
      {T : Type 0} (c : ch.Channel T) (x : T) (xs : List T)
      → ch.contents c ≡ x ∷ xs
      → (c' : ch.Channel T) × (ch.try_receive c ≡ some (x, c'))
        × (ch.contents c' ≡ xs)
        × (ch.capacity c' ≡ ch.capacity c)
  pub receive_empty : {T : Type 0} (c : ch.Channel T) → ch.contents c ≡ [] → ch.try_receive c ≡ none
  pub full_iff :
      {T : Type 0} (c : ch.Channel T)
      → (ch.is_full c ≡ true) ↔ (ch.capacity c ≤ length (ch.contents c))
