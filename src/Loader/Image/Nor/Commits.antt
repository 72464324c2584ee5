-- ===== src/Loader/Image/Nor/Commits.antt =====
-- That a whole load commits, and survives a reboot, on a NOR flash without failures.
use opti_bridge.Prelude.{
  ℕ, ◌+◌, ◌*◌, ◌^◌, ◌≤◌, ◌<◌, ◌≡◌, refl, ap, sym, ◌∙◌, subst, inl, none, some, List, [], ◌∷◌, ◌++◌,
  length, copy_at, replicate, All, length-append, append_assoc, append-nil, ok, arith, false,
}
use opti_bridge.Protocol.{bpf_map_descriptor_size}
use opti_bridge.Crc.{crc32_update, crc32_finish}
use opti_bridge.Loader.{
  BpfFlash, BpfLoader, MapLayout, no_layouts, LoadOperation, begin_op, data_op, finalize_op,
  committed, new,
}
use opti_bridge.Loader.Accept.{accepts_load, is_running}
use opti_bridge.Loader.Image.{execute_pending, validate_committed}
use opti_bridge.Loader.Image.Invariant.{IsImage}
use opti_bridge.Loader.Image.Nor.Agrees.{Receives, Stored}
use opti_bridge.Loader.Image.Nor.Sessions.{Session, accepts, executes, Session-Agrees, reboot_finds}
use opti_bridge.Loader.Image.Nor.{IsNor, layouts_in}
use opti_bridge.Loader.Image.Nor.Loads.{
  load, begin_payload, data_payload, finalize_payload, accepted, operation-begin, IsChunk,
  operation-data, operation-finalize, Works, Progress, joined, data_payloads, load_payloads, feed,
  cells_of, Committed, held-cells, begin_payload-IsBytes, data_payload-IsBytes, load-IsBytes,
}
use opti_bridge.Loader.Image.Nor.CommitSteps.{begin-Progress, data-Progress, finalize-Committed}

module _ {ℓ} {S : Type ℓ} {flash : BpfFlash S} {peek : S → ℕ → ℕ} (nor : IsNor flash peek)
    (works : Works flash) where
  feed_step :
      (l : BpfLoader) (payload : List ℕ) (payloads : List (List ℕ)) (op : LoadOperation) (s : S)
      → accepts_load l (load payload) ≡ some (record l { pending = some op }, ok tt)
      → let (l', s') = execute_pending flash (record l { pending = some op }) s in
        feed flash (payload ∷ payloads) l s ≡ feed flash payloads l' s'
  unfolding feed
  feed_step l payload payloads op s e = rw (e, feed) refl

  data_commits :
      (chunks : List (List ℕ)) (b m c : ℕ) (received image : List ℕ) (layouts : List MapLayout)
      (l : BpfLoader) (s : S)
      → Session flash l s
      → Progress b m c received l (peek s)
      → All IsChunk chunks
      → received ++ joined chunks ≡ image
      → length image ≡ b + m * bpf_map_descriptor_size
      → crc32_finish (crc32_update 0xffff_ffff image) ≡ c
      → layouts_in (cells_of image) b m 0 0 no_layouts ≡ some layouts
      → (l' : BpfLoader) × (s' : S) × (feed flash (data_payloads (length received) chunks) l s
          ≡ some (l', s'))
        × Session flash l' s'
        × Committed b m c layouts l'
  unfolding data_payloads joined feed
  data_commits [] b m c received image layouts l s before p fine all size right laid =
      let (v, a) = Session-Agrees nor before in
      let r : Receives l (peek s) = subst (λ state. Stored state l (peek s)) p.state a.stored in
      let same : received ≡ image = sym (append-nil received) ∙ all in
      let p' : Progress b m c image l (peek s) = subst (λ i. Progress b m c i l (peek s)) same p in
      let t = v.transfer p.state in
      let whole : l.next_offset ≡ l.image_len =
        omega (arith, p'.next, size, t.sized, p.bytecode, p.maps) in
      let accepted_it =
        accepted l finalize_payload finalize_op p.quiet (rw p.state refl) (omega arith)
          (operation-finalize l p.state whole) in
      let asked : BpfLoader = record l { pending = some finalize_op } in
      (
        (execute_pending flash asked s).0,
        (execute_pending flash asked s).1,
        feed_step l finalize_payload [] finalize_op s accepted_it,
        executes (
            accepts (load finalize_payload) before (load-IsBytes finalize_payload (omega arith))
              accepted_it),
        finalize-Committed nor works l b m c image layouts s p' r.sum right
            (held-cells (peek s) image b m p'.held size ∙ laid),
      )
  data_commits (chunk ∷ chunks) b m c received image layouts l s before p fine all size right laid =
      let (v, a) = Session-Agrees nor before in
      let r : Receives l (peek s) = subst (λ state. Stored state l (peek s)) p.state a.stored in
      let t = v.transfer p.state in
      let (here, later) = fine in
      let n = length received in
      let grown : length (received ++ chunk) ≡ n + length chunk = length-append received chunk in
      let total : length image ≡ n + (length chunk + length (joined chunks)) =
        ap length (sym all)
        ∙ length-append received (chunk ++ joined chunks)
        ∙ ap (λ k. n + k) (length-append chunk (joined chunks)) in
      let fits : n + length chunk ≤ l.image_len =
        omega (arith, total, size, t.sized, p.bytecode, p.maps) in
      let op = data_op n (copy_at 0 chunk (replicate 12 0)) (length chunk) in
      let payload = data_payload n chunk in
      let accepted_it =
        accepted l payload op p.quiet (rw p.state refl) (omega (arith, here.few_bytes)) (
          operation-data l n chunk here p.state (sym p.next) fits
            (omega (arith, fits, t.sized, t.image.total_max))) in
      let asked : BpfLoader = record l { pending = some op } in
      let l₁ = (execute_pending flash asked s).0 in
      let s₁ = (execute_pending flash asked s).1 in
      let (l', s', fed, after, done) =
        data_commits chunks b m c (received ++ chunk) image layouts l₁ s₁
          (executes (
            accepts (load payload) before
              (load-IsBytes payload (data_payload-IsBytes n chunk here.bytes)) accepted_it))
          (data-Progress nor works l b m c received chunk s t r p here fits) later
          (append_assoc received chunk (joined chunks) ∙ all) size right laid in
      (
        l',
        s',
        feed_step l payload (data_payloads (n + length chunk) chunks) op s accepted_it
            ∙ ap (λ k. feed flash (data_payloads k chunks) l₁ s₁) (sym grown)
            ∙ fed,
        after,
        done,
      )

  -- On NOR flash that never fails, a whole load commits: from any point of a session with nothing
  -- pending and no program running, Begin, the chunks of an image of the declared length and CRC
  -- whose descriptors are accepted, and Finalize leave the loader committed with that CRC and those
  -- map layouts; and the next boot finds the same.
  pub load_commits :
      (chunks : List (List ℕ)) (b m c : ℕ) (layouts : List MapLayout) (l : BpfLoader) (s : S)
      → Session flash l s
      → l.pending ≡ none
      → is_running l.state ≡ false
      → IsImage b m
      → c < 2 ^ 32
      → All IsChunk chunks
      → length (joined chunks) ≡ b + m * bpf_map_descriptor_size
      → crc32_finish (crc32_update 0xffff_ffff (joined chunks)) ≡ c
      → layouts_in (cells_of (joined chunks)) b m 0 0 no_layouts ≡ some layouts
      → (l' : BpfLoader) × (s' : S) × (feed flash (load_payloads b m c chunks) l s ≡ some (l', s'))
        × Committed b m c layouts l'
        × (((validate_committed flash new s').0).state ≡ committed c)
        × (((validate_committed flash new s').0).map_layouts ≡ layouts)
  load_commits chunks b m c layouts l s before quiet still image word fine size right laid =
      let op = begin_op b m c in
      let payload = begin_payload b m c in
      let accepted_it =
        accepted l payload op quiet still (omega arith) (operation-begin l b m c image word) in
      let asked : BpfLoader = record l { pending = some op } in
      let l₁ = (execute_pending flash asked s).0 in
      let s₁ = (execute_pending flash asked s).1 in
      let (l', s', fed, after, done) =
        data_commits chunks b m c [] (joined chunks) layouts l₁ s₁
          (executes (
            accepts (load payload) before
              (load-IsBytes payload (begin_payload-IsBytes b m c (omega (arith, image.maps_max))))
              accepted_it))
          (begin-Progress nor works l b m c s image) fine refl size right laid in
      let (state, same, metadata) = reboot_finds nor c after works.answers (inl (done.0)) in
      (
        l',
        s',
        feed_step l payload (data_payloads 0 chunks) op s accepted_it ∙ fed,
        done,
        state,
        same ∙ done.2,
      )
