-- ===== src/Frame/Packet/Completion.antt =====
-- The bytes of a frame, one after the other: the specification `receive` waits until the last one,
-- which completes the request.
use opti_bridge.Prelude.{
  ℕ, ◌+◌, ◌≤◌, ◌<◌, ◌≡◌, refl, subst, ◌∙◌, Option, none, some, List, [], ◌∷◌, ◌++◌, length, get_or,
  Result, ok, err, arith, length-append, get_or-append_left, append_assoc, ap,
}
use opti_bridge.Protocol.{magic, header_len, max_payload}
use opti_bridge.Frame.{Request, ParseError, latest}
use opti_bridge.Frame.Stream.{receive, settle, spelled}
use opti_bridge.Frame.Packet.{wire, request_for, stream}

-- Behind the bytes `q`, these bytes complete a request.
pub data Completes : List ℕ → List ℕ → Request → Type 0 where
  last :
      {q : List ℕ} {b : ℕ} {r : Request} → receive q b ≡ ([], ok (some r)) → Completes q (b ∷ []) r
  waits :
      {q q' : List ℕ} {b : ℕ} {bs : List ℕ} {r : Request}
      → receive q b ≡ (q', ok none)
      → Completes q' bs r
      → Completes q (b ∷ bs) r

-- The fifth byte does not settle a frame whose payload is still to come.
settle_header :
    (c n f : ℕ) (x : ℕ) (body : List ℕ)
    → length (x ∷ body) ≤ max_payload
    → settle (magic ∷ c ∷ length (x ∷ body) ∷ n ∷ f ∷ [])
      ≡ (magic ∷ c ∷ length (x ∷ body) ∷ n ∷ f ∷ [], ok none)
settle_header c n f x body h = ground arith

settle_last :
    (q : List ℕ)
    → 6 ≤ length q
    → length q ≡ header_len + get_or q 2 0
    → settle q ≡ ([], ok (some (spelled q)))
settle_last q lo e = ground arith

settle_middle :
    (q : List ℕ) → 6 ≤ length q → length q < header_len + get_or q 2 0 → settle q ≡ (q, ok none)
settle_middle q lo e = ground arith

receive_held : (q : List ℕ) (b : ℕ) → 5 ≤ length q → receive q b ≡ settle (q ++ b ∷ [])
unfolding receive
receive_held q b h = ground arith

-- The payload bytes of a frame whose header is held.
body-Completes :
    (q : List ℕ) (b : ℕ) (body : List ℕ)
    → 5 ≤ length q
    → length q + length (b ∷ body) ≡ header_len + get_or q 2 0
    → Completes q (b ∷ body) (spelled (q ++ b ∷ body))
body-Completes q b [] lo e =
    last (
      receive_held q b lo
      ∙ settle_last (q ++ b ∷ []) (omega (arith, one)) (omega (arith, one, two)))
  where
    one : length (q ++ b ∷ []) ≡ length q + 1
    one = length-append q (b ∷ [])

    two : get_or (q ++ b ∷ []) 2 0 ≡ get_or q 2 0
    two = get_or-append_left q (b ∷ []) 2 0 (omega arith)
body-Completes q b (b' ∷ body) lo e =
    waits
      (receive_held q b lo
        ∙ settle_middle (q ++ b ∷ []) (omega (arith, one)) (omega (arith, one, two)))
      (subst (λ t. Completes (q ++ b ∷ []) (b' ∷ body) (spelled t))
        (append_assoc q (b ∷ []) (b' ∷ body))
        (body-Completes (q ++ b ∷ []) b' body (omega (arith, one)) (omega (arith, one, two))))
  where
    one : length (q ++ b ∷ []) ≡ length q + 1
    one = length-append q (b ∷ [])

    two : get_or (q ++ b ∷ []) 2 0 ≡ get_or q 2 0
    two = get_or-append_left q (b ∷ []) 2 0 (omega arith)

-- The wire form of a request completes it.
pub wire-Completes :
    (c n f : ℕ) (body : List ℕ)
    → length body ≤ max_payload
    → Completes [] (wire c n f body) (request_for c n f body)
unfolding receive
wire-Completes c n f [] h = waits refl (waits refl (waits refl (waits refl (last refl))))
wire-Completes c n f (x ∷ body) h = waits refl (
    waits refl (
      waits refl (
        waits refl (
          waits (settle_header c n f x body h) (
            subst (Completes (magic ∷ c ∷ length (x ∷ body) ∷ n ∷ f ∷ []) (x ∷ body)) (ground arith)
              (body-Completes (magic ∷ c ∷ length (x ∷ body) ∷ n ∷ f ∷ []) x body (omega arith)
                (omega arith)))))))

-- The loop over the specification sees that request.
pub Completes-stream :
    {q bs : List ℕ} {r : Request} (before : Option Request) (rest : List ℕ)
    → Completes q bs r
    → stream q before (bs ++ rest) ≡ stream [] (some r) rest
unfolding stream
Completes-stream before rest (last {b = b} e) =
    ap {B = Option (List ℕ × Option Request)}
      (λ (x : List ℕ × Result (Option Request) ParseError). elim x.1 [
        | err e ↦ none
        | ok found ↦ stream x.0 (latest found before) rest
      ])
      e
Completes-stream before rest (waits {bs = bs} e more) =
    ap {B = Option (List ℕ × Option Request)}
      (λ (x : List ℕ × Result (Option Request) ParseError). elim x.1 [
        | err e ↦ none
        | ok found ↦ stream x.0 (latest found before) (bs ++ rest)
      ])
      e
    ∙ Completes-stream before rest more
