-- ===== src/Records/Reads.antt =====
-- Records in a coherent data file: what staging one leaves, and reading one or its header.
use uol_ms_project.Prelude.{
  true, false, take-append-drop, take-append_left, ==_refl, some, Bool, ℕ, ◌+◌, ◌-◌, ◌*◌, ◌≤◌, ◌≡◌,
  refl, sym, ap, subst, ◌∙◌, [], ◌∷◌, ◌++◌, length, take, drop, arith,
}
use uol_ms_project.Prelude.Exec.{Returns-weaken, Exec, Returns, Returns-bind}
use uol_ms_project.Error.{ok, Result}
use uol_ms_project.Bytes.{Bytes}
use uol_ms_project.Format.{page_size}
use uol_ms_project.Format.RecordHeader
use uol_ms_project.Format.RecordHeader.{RecordHeader, header_len}
use uol_ms_project.Format.RecordHeader.RoundTrip.{decode-image, length-image, IsHeader, image}
use uol_ms_project.Io.{BlockIo, IsReliable, read_cells}
use uol_ms_project.Data.{PagedFile}
use uol_ms_project.Data.View.{view, limit, IsCoherent}
use uol_ms_project.Data.Access.{recycle}
use uol_ms_project.Data.Files.{read_aligned}
use uol_ms_project.Data.Reads.{take-read_cells, read_aligned_lem}
use uol_ms_project.Data.Stage.Fresh.{Kept, recycled-Kept}
use uol_ms_project.Data.Stage.{stage}
use uol_ms_project.Data.Stage.Writes.{stage_lem}
use uol_ms_project.Records.{
  check_header, read_header, DataFile, parse, record_header_of, header_bytes, on_paged,
  stage_record, read_record,
}
use uol_ms_project.Records.Parse.{stored, parse_lem, joined_record, length-record}
use uol_ms_project.Data.Stage.Open.{IsStage}

module _ (io : BlockIo) where
  pub Returns-on_paged :
      {A : Type 0} {P : A → PagedFile × BlockIo.Io io → Type 0}
      (method : Exec (PagedFile × BlockIo.Io io) A) (file : DataFile) (s : BlockIo.Io io)
      → Returns P (method (file.paged_file, s))
      → Returns
          (λ a after.
            P a (after.0.paged_file, after.1)
            × (after.0 ≡ record file { paged_file = after.0.paged_file }))
          (on_paged io method (file, s))
  Returns-on_paged method file s h = record {
    value = h.value;
    state = (record file { paged_file = h.state.0 }, h.state.1);
    outcome = ap (λ r. (r.0, (record file { paged_file = r.1.0 }, r.1.1))) h.outcome;
    post = (h.post, refl);
  }

module _ (io : BlockIo) (reliable : IsReliable io) where
  -- A record that the paged file stands for is read.
  pub read_record_lem :
      (off bucket id version : ℕ) (payload : Bytes) (file : DataFile) (s : BlockIo.Io io)
      → let h = record_header_of file.integrity bucket id version payload in
        let total = header_len file.with_bucket + length payload in
        IsCoherent file.paged_file
        → IsHeader h
        → off + total + 2 * page_size ≤ limit
        → read_cells (view file.paged_file) off total ≡ image h file.with_bucket ++ payload
        → Returns
            (λ r after.
              (r.0 ≡ stored file.with_bucket h)
              × (r.1 ≡ payload)
              × Kept file.paged_file after.0.paged_file
              × (after.0 ≡ record file { paged_file = after.0.paged_file }))
            (read_record io off total id (file, s))
  unfolding read_record
  read_record_lem off bucket id version payload file s coherent v bound held =
      let wb = file.with_bucket in
      let total = header_len wb + length payload in
      let h = record_header_of file.integrity bucket id version payload in
      Returns-bind (on_paged io (read_aligned io off total)) _
        (Returns-on_paged io (read_aligned io off total) file s
          (read_aligned_lem io reliable off total file.paged_file s coherent (omega arith)))
        (λ found after ((cells, flushed), kept).
          let count : found.1 + total - found.1 ≡ total = omega arith in
          let end : DataFile × BlockIo.Io io =
            (record after.0 { paged_file = recycle found.0 after.0.paged_file }, after.1) in
          record {
            value = (stored wb h, payload);
            state = end;
            outcome =
                ap (λ (r : Result (RecordHeader × Bytes)). (r, end))
                  (ap
                      (λ (q : DataFile).
                        parse q.with_bucket q.integrity found.0.content found.1 total id off)
                      kept
                    ∙ parse_lem wb file.integrity bucket id version payload found.0.content found.1
                        off v (omega arith)
                        (ap (λ n. take n (drop found.1 found.0.content)) (sym count)
                          ∙ cells
                          ∙ held));
            post = (
              refl,
              refl,
              recycled-Kept file.paged_file after.0.paged_file found.0 flushed,
              ap (λ (q : DataFile). record q { paged_file = recycle found.0 after.0.paged_file })
                  kept,
            );
          })

  -- Staging a record lays its image and its payload over the file.
  pub stage_record_lem :
      (off bucket id version : ℕ) (payload : Bytes) (file : DataFile) (s : BlockIo.Io io)
      → let h = record_header_of file.integrity bucket id version payload in
        IsCoherent file.paged_file
        → off + (header_len file.with_bucket + length payload) + 2 * page_size ≤ limit
        → Returns
            (λ _ after.
              IsStage off (image h file.with_bucket ++ payload) file.paged_file after.0.paged_file
              × (after.0 ≡ record file { paged_file = after.0.paged_file }))
            (stage_record io off bucket id version payload (file, s))
  unfolding stage_record
  stage_record_lem off bucket id version payload file s coherent bound =
      let wb = file.with_bucket in
      let h = record_header_of file.integrity bucket id version payload in
      let parts = header_bytes wb h ∷ payload ∷ [] in
      let same = joined_record wb h payload in
      Returns-weaken _
        (Returns-on_paged io (stage io off parts) file s (
          stage_lem io reliable off parts file.paged_file s coherent
            (omega (arith, ap length same, length-record wb h payload, bound))))
        (λ u after (st, kept).
          (subst (λ b. IsStage off b file.paged_file after.0.paged_file) same st, kept))

  -- The header alone is read, too.
  pub read_header_lem :
      (off bucket id version : ℕ) (payload : Bytes) (file : DataFile) (s : BlockIo.Io io)
      → let h = record_header_of file.integrity bucket id version payload in
        let total = header_len file.with_bucket + length payload in
        IsCoherent file.paged_file
        → IsHeader h
        → off + total + 2 * page_size ≤ limit
        → read_cells (view file.paged_file) off total ≡ image h file.with_bucket ++ payload
        → Returns
            (λ r after.
              (r ≡ stored file.with_bucket h)
              × Kept file.paged_file after.0.paged_file
              × (after.0 ≡ record file { paged_file = after.0.paged_file }))
            (read_header io off id (file, s))
  unfolding read_header
  read_header_lem off bucket id version payload file s coherent v bound held =
      let wb = file.with_bucket in
      let n = header_len wb in
      let h = record_header_of file.integrity bucket id version payload in
      Returns-bind (on_paged io (read_aligned io off n)) _
        (Returns-on_paged io (read_aligned io off n) file s
          (read_aligned_lem io reliable off n file.paged_file s coherent (omega arith)))
        (λ found after ((cells, flushed), kept).
          let end : DataFile × BlockIo.Io io =
            (record after.0 { paged_file = recycle found.0 after.0.paged_file }, after.1) in
          let count : found.1 + n - found.1 ≡ n = omega arith in
          let held_header : take n (drop found.1 found.0.content) ≡ image h wb =
            ap (λ k. take k (drop found.1 found.0.content)) (sym count)
            ∙ cells
            ∙ sym (take-read_cells (view file.paged_file) off n (n + length payload) (omega arith))
            ∙ ap (take n) held
            ∙ take-append_left n (image h wb) payload (sym (length-image h wb)) in
          record {
            value = stored wb h;
            state = end;
            outcome =
                ap (λ (r : Result RecordHeader). (r, end))
                  (ap (λ t. check_header off id (RecordHeader.decode t wb))
                      (sym (take-append-drop n (drop found.1 found.0.content))
                        ∙ ap (λ t. t ++ drop n (drop found.1 found.0.content)) held_header)
                    ∙ ap (check_header off id) (decode-image h wb _ v)
                    ∙ checked wb);
            post = (
              refl,
              recycled-Kept file.paged_file after.0.paged_file found.0 flushed,
              ap (λ (q : DataFile). record q { paged_file = recycle found.0 after.0.paged_file })
                  kept,
            );
          })
    where
      checked :
          (b : Bool)
          → check_header off id
              (some (stored b (record_header_of file.integrity bucket id version payload)))
            ≡ ok (stored b (record_header_of file.integrity bucket id version payload))
      checked true = rw (==_refl id) refl
      checked false = rw (==_refl id) refl
