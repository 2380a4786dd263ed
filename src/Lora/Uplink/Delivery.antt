-- ===== src/Lora/Uplink/Delivery.antt =====
-- lora_uplink.rs: frames through `UplinkFrameBuffer`, byte by byte.
use l_comboard.Base.{
  ℕ, ◌+◌, ◌<◌, ◌≡◌, refl, ap, ◌∙◌, sym, List, [], ◌∷◌, ◌++◌, none, some, length, length-append,
  arith,
}
use l_comboard.Base.Result.{Result, ok}
use l_comboard.Lora.Checksum.{xor_checksum}
use l_comboard.Lora.Uplink.{
  UplinkCommand, UplinkDecodeError, UplinkFrameBuffer, decode_uplink, push, generic, stop_actuator,
  stop_liftoff, local_command, ground_time,
}
use l_comboard.Lora.Uplink.Buffer.{IsBuffer, held, held_push, push-held, Outcome}
use l_comboard.Lora.Uplink.Wire.{content, frame, IsUplink}
use l_comboard.Lora.Uplink.Codec.{decode_uplink-frame}

abbrev pub report : Outcome → List (Result UplinkDecodeError UplinkCommand)
report none = []
report (some r) = r ∷ []

-- The bytes received one after the other, with what the pushes report.
abbrev pub feed :
    UplinkFrameBuffer → List ℕ → UplinkFrameBuffer × List (Result UplinkDecodeError UplinkCommand)
feed b [] = (b, [])
feed b (x ∷ xs) =
    let (b', o) = push b x in let (b'', reports) = feed b' xs in (b'', report o ++ reports)

append_assoc : (xs ys zs : List ℕ) → (xs ++ ys) ++ zs ≡ xs ++ (ys ++ zs)
append_assoc [] ys zs = refl
append_assoc (x ∷ xs) ys zs = ap (◌∷◌ x) (append_assoc xs ys zs)

-- The bytes that fill a buffer which holds at least one.
filled :
    (b : UplinkFrameBuffer) (xs : List ℕ) (x : ℕ) (c : UplinkCommand)
    → IsBuffer b
    → 0 < length (held b)
    → length (held b) + length xs ≡ 10
    → decode_uplink (held b ++ (xs ++ x ∷ [])) ≡ ok c
    → IsBuffer (feed b (xs ++ x ∷ [])).0
      × (held (feed b (xs ++ x ∷ [])).0 ≡ [])
      × ((feed b (xs ++ x ∷ [])).1 ≡ ok c ∷ [])
filled b [] x c w p n d =
    let (w', e) = push-held b x w in
    let h : held_push (held b) x ≡ ([], some (ok c)) = ground arith in
    (w', ap (λ k. k.0) (e ∙ h), ap (λ k. report k.1 ++ []) (e ∙ h))
filled b (y ∷ xs) x c w p n d =
    let (w', e) = push-held b y w in
    let h : held_push (held b) y ≡ (held b ++ y ∷ [], none) = ground arith in
    let hb : held (push b y).0 ≡ held b ++ y ∷ [] = ap (λ k. k.0) (e ∙ h) in
    let o : (push b y).1 ≡ none = ap (λ k. k.1) (e ∙ h) in
    let l = length-append (held b) (y ∷ []) in
    let (w'', h'', r'') =
      filled (push b y).0 xs x c w' (rw hb (omega arith)) (rw hb (omega arith))
        (rw hb (ap decode_uplink (append_assoc (held b) (y ∷ []) (xs ++ x ∷ [])) ∙ d)) in
    (w'', h'', rw o r'')

received :
    (b : UplinkFrameBuffer) (xs : List ℕ) (x : ℕ) (c : UplinkCommand)
    → IsBuffer b
    → b.length ≡ 0
    → length xs ≡ 9
    → decode_uplink (0x55 ∷ (xs ++ x ∷ [])) ≡ ok c
    → IsBuffer (feed b (0x55 ∷ (xs ++ x ∷ []))).0
      × (held (feed b (0x55 ∷ (xs ++ x ∷ []))).0 ≡ [])
      × ((feed b (0x55 ∷ (xs ++ x ∷ []))).1 ≡ ok c ∷ [])
received b xs x c w z n d =
    let (w', e) = push-held b 0x55 w in
    let h : held_push (held b) 0x55 ≡ (0x55 ∷ [], none) = rw z refl in
    let hb : held (push b 0x55).0 ≡ 0x55 ∷ [] = ap (λ k. k.0) (e ∙ h) in
    let o : (push b 0x55).1 ≡ none = ap (λ k. k.1) (e ∙ h) in
    let (w'', h'', r'') =
      filled (push b 0x55).0 xs x c w' (rw hb (omega arith)) (rw hb (omega arith)) (rw hb d) in
    (w'', h'', rw o r'')

content_header :
    (c : UplinkCommand) → IsUplink c → (xs : List ℕ) × (content c ≡ 0x55 ∷ xs) × (length xs ≡ 9)
content_header (generic r) u = let (id, live, six) = u.fields in (_, refl, omega (arith, six))
content_header (stop_actuator id) u = (_, refl, refl)
content_header (stop_liftoff id) u = (_, refl, refl)
content_header (local_command r) u = let (id, six) = u.fields in (_, refl, omega (arith, six))
content_header (ground_time t) u = (_, refl, refl)

-- An empty buffer that receives the frame of a command reports that command and nothing else,
-- and is empty again.
pub feed-frame :
    (b : UplinkFrameBuffer) (c : UplinkCommand)
    → IsBuffer b
    → b.length ≡ 0
    → IsUplink c
    → IsBuffer (feed b (frame c)).0
      × (held (feed b (frame c)).0 ≡ [])
      × ((feed b (frame c)).1 ≡ ok c ∷ [])
feed-frame b c w z u =
    let (xs, e, n) = content_header c u in
    let f : frame c ≡ 0x55 ∷ (xs ++ xor_checksum (content c) ∷ []) =
      ap (λ k. k ++ xor_checksum (content c) ∷ []) e in
    rw f (
      received b xs (xor_checksum (content c)) c w z n
        (ap decode_uplink (sym f) ∙ decode_uplink-frame c u))
