-- ===== src/Bridge/Sessions/Answers.antt =====
-- What a session of the bridge, `main` of firmware/i2c-bridge/src/main.rs, answers to a terminal that
-- connects and sends whole frames in packets.
use opti_bridge.Prelude.{
  ℕ, suc, ◌<◌, ◌≡◌, refl, ap, sym, subst, ◌∙◌, List, [], ◌∷◌, ◌++◌, length, ok, err, All,
  Result-cases, inl, inr,
}
use opti_bridge.Protocol.{max_frame}
use opti_bridge.Frame.{Parser, reset, IsParser}
use opti_bridge.Bridge.{I2c}
use opti_bridge.Bridge.Sessions.{
  Cdc, Ended, listens, resets, panics, then_next, serve_bytes, listen, connect, await_dtr, greeting,
}
use opti_bridge.Bridge.Sessions.Safety.{reset-IsParser}
use opti_bridge.Bridge.Sessions.Frames.{
  Sent, wires, requests, IsSent, Outcome, goes_on, restarts, fails, outcome_of, IsBetweenFrames,
  respond_all, serve_bytes-respond_all,
}
use opti_bridge.Bridge.Sessions.Packets.{
  Packets, joined, Fits, rounds_for, beside, IsSending, behind, listen-joined, listen_once-overrun,
}

module _ {ℓ} {D : Type ℓ} where
  -- The greeting is written first; if that fails, the bridge restarts.
  abbrev pub greeted : Cdc D → (D → Outcome × D) → D → Outcome × D
  greeted near next d =
      let (d', written) = near.write_packet d greeting in
      elim written [ ok done ↦ next d' | err e ↦ (restarts, d') ]

  -- A restart after what was still going on.
  abbrev pub cut : Outcome × D → Outcome × D
  cut (goes_on output, d) = (restarts, d)
  cut (restarts, d) = (restarts, d)
  cut (fails, d) = (fails, d)

  then_listens : (r : Ended × D) → then_next {S = D} (λ p output d. (listens p output, d)) r ≡ r
  then_listens (listens p output, d) = refl
  then_listens (resets, d) = refl
  then_listens (panics, d) = refl

  then_resets :
      (next : Parser → List ℕ → D → Ended × D)
      → ((p : Parser) (output : List ℕ) (d : D) → next p output d ≡ (resets, d))
      → (r : Ended × D) → outcome_of (then_next next r) ≡ cut (outcome_of r)
  then_resets next over (listens p output, d) = ap outcome_of (over p output d)
  then_resets next over (resets, d) = refl
  then_resets next over (panics, d) = refl

append_nil : (ps : Packets) → ps ++ [] ≡ ps
append_nil [] = refl
append_nil (p ∷ ps) = ap (λ qs. p ∷ qs) (append_nil ps)

module _ {ℓ} {D : Type ℓ} (i2c : I2c D) (near : Cdc D) (cdc : Cdc (D × Packets)) where
  connect-ok :
      (polls rounds : ℕ) (p : Parser) (output : List ℕ) (d : D) (ps : Packets) {done : Unit {0}}
      → IsSending near cdc
      → (near.write_packet d greeting).1 ≡ ok done
      → connect (beside i2c) cdc (suc polls) rounds p output (d, ps)
        ≡ listen (beside i2c) cdc rounds (reset p) output ((near.write_packet d greeting).0, ps)
  unfolding connect await_dtr
  connect-ok polls rounds p output d ps sends e =
      let wrote = sends.writes d ps greeting in
      let held = sends.held (near.write_packet d greeting).0 ps in
      rw (wrote, e, connect) (rw (wrote, held) refl)

  connect-err :
      (polls rounds : ℕ) (p : Parser) (output : List ℕ) (d : D) (ps : Packets) {e : Unit {0}}
      → IsSending near cdc
      → (near.write_packet d greeting).1 ≡ err e
      → connect (beside i2c) cdc (suc polls) rounds p output (d, ps)
        ≡ (resets, ((near.write_packet d greeting).0, ps))
  unfolding connect
  connect-err polls rounds p output d ps sends e =
      let wrote = sends.writes d ps greeting in rw (wrote, e, connect) (rw wrote refl)

  -- A terminal connects, holds DTR and sends whole frames, cut in any way into packets of at most 21
  -- bytes. It is greeted, and each frame is answered in turn as the specification has it, whatever
  -- the parser held from before; a loop that goes on then stands between two frames. If the greeting
  -- cannot be written the bridge restarts.
  pub connect-respond_all :
      (frames : List Sent) (packets : Packets) (polls : ℕ) (p : Parser) (output : List ℕ) (d : D)
      → IsSending near cdc
      → IsParser p
      → All IsSent frames
      → All Fits packets
      → joined packets ≡ wires frames
      → let x = connect (beside i2c) cdc (suc polls) (rounds_for packets 0) p output (d, packets) in
        (outcome_of (behind x) ≡ greeted near (respond_all i2c near (requests frames) output) d)
        × IsBetweenFrames x.0
  unfolding listen
  connect-respond_all frames packets polls p output d sends v sent short same =
      elim (Result-cases (near.write_packet d greeting).1) [
        | inr (e, failed) ↦
            rw
              (
                failed,
                greeted,
                connect-err polls (rounds_for packets 0) p output d packets sends failed,
              )
              (refl, tt)
        | inl (done, wrote) ↦
            let d' = (near.write_packet d greeting).0 in
            let heard : behind (
                  connect (beside i2c) cdc (suc polls) (rounds_for packets 0) p output (d, packets))
                ≡ serve_bytes i2c near (wires frames) (reset p) output d' =
              ap behind (connect-ok polls (rounds_for packets 0) p output d packets sends wrote)
              ∙ (ap
                    (λ qs.
                      behind
                        (listen (beside i2c) cdc (rounds_for packets 0) (reset p) output (d', qs)))
                    (sym (append_nil packets))
                  ∙ (listen-joined i2c near cdc sends packets [] 0 (reset p) output d' short
                      ∙ (then_listens (serve_bytes i2c near (joined packets) (reset p) output d')
                          ∙ ap (λ bytes. serve_bytes i2c near bytes (reset p) output d') same))) in
            let (answered, idle) =
              serve_bytes-respond_all i2c near frames (reset p) output d' sent (reset-IsParser p v)
                refl in
            (
              rw (wrote, greeted) (ap outcome_of heard ∙ answered),
              subst (λ r. IsBetweenFrames r.0) (sym heard) idle,
            )
      ]

  -- If a packet of more than 21 bytes follows, the bridge restarts once the frames before it are
  -- answered: no byte of that packet is looked at.
  pub connect-overrun :
      (frames : List Sent) (packets more : Packets) (long : List ℕ) (polls : ℕ) (p : Parser)
      (output : List ℕ) (d : D)
      → IsSending near cdc
      → IsParser p
      → All IsSent frames
      → All Fits packets
      → joined packets ≡ wires frames
      → max_frame < length long
      → outcome_of (
          behind (
            connect
              (beside i2c)
              cdc
              (suc polls)
              (rounds_for packets 1)
              p
              output
              (d, packets ++ long ∷ more)))
        ≡ greeted near (λ d. cut (respond_all i2c near (requests frames) output d)) d
  unfolding listen
  connect-overrun frames packets more long polls p output d sends v sent short same over =
      elim (Result-cases (near.write_packet d greeting).1) [
        | inr (e, failed) ↦
            rw
              (
                failed,
                greeted,
                connect-err polls (rounds_for packets 1) p output d (packets ++ long ∷ more) sends
                    failed,
              )
              refl
        | inl (done, wrote) ↦
            let d' = (near.write_packet d greeting).0 in
            let served = serve_bytes i2c near (joined packets) (reset p) output d' in
            let answered =
              (serve_bytes-respond_all i2c near frames (reset p) output d' sent (reset-IsParser p v)
                refl).0 in
            rw (wrote, greeted)
              (ap (λ r. outcome_of (behind r))
                  (connect-ok polls (rounds_for packets 1) p output d (packets ++ long ∷ more) sends
                    wrote)
                ∙ (ap outcome_of (
                      listen-joined i2c near cdc sends packets (long ∷ more) 1 (reset p) output d'
                        short)
                    ∙ (then_resets _
                          (λ p output d.
                            ap (λ r. behind (then_next (listen (beside i2c) cdc 0) r))
                              (listen_once-overrun i2c near cdc sends long p output d more over))
                          served
                        ∙ ap cut (
                            ap
                              (λ bytes. outcome_of (serve_bytes i2c near bytes (reset p) output d'))
                              same
                            ∙ answered))))
      ]
