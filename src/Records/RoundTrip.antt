-- ===== src/Records/RoundTrip.antt =====
-- A record that was staged is read back, whatever else the paged file holds.
use uol_ms_project.Prelude.{ℕ, ◌+◌, ◌*◌, ◌≤◌, ◌≡◌, sym, ap, subst, ◌∙◌, ◌++◌, All, length, arith}
use uol_ms_project.Prelude.Exec.{Returns-weaken, Returns, Returns-bind, ◌>>◌}
use uol_ms_project.Bytes.{Bytes, IsByte, IsU16, IsU64}
use uol_ms_project.Format.{page_size}
use uol_ms_project.Format.RecordHeader.{header_len}
use uol_ms_project.Format.RecordHeader.RoundTrip.{IsHeader, image}
use uol_ms_project.Io.{BlockIo, IsReliable, read_cells}
use uol_ms_project.Io.Parts.{read_cells-overlay}
use uol_ms_project.Data.View.{view, limit, IsCoherent}
use uol_ms_project.Records.{
  DataFile, record_header_of, record_header_len, stage_record, read_record,
}
use uol_ms_project.Records.Reads.{read_record_lem, stage_record_lem}
use uol_ms_project.Records.Parse.{stored, record_header_of-IsHeader, length-record}

module _ (io : BlockIo) (reliable : IsReliable io) where
  -- A record that is staged in a coherent data file, over a reliable backend, is read back under its
  -- number and its length: the header is the one that was written, save for the bucket number where
  -- the layout has no buckets, and the payload is the same. The fields are words of their sizes, and
  -- the record ends two pages below 2 ^ 63.
  pub read_record-stage_record :
      (off bucket id version : ℕ) (payload : Bytes) (file : DataFile) (s : BlockIo.Io io)
      → IsCoherent file.paged_file
      → IsU64 bucket
      → IsU64 id
      → IsU16 version
      → All IsByte payload
      → off + (record_header_len file + length payload) + 2 * page_size ≤ limit
      → Returns
          (λ r _.
            (r.0
              ≡ stored file.with_bucket (record_header_of file.integrity bucket id version payload))
            × (r.1 ≡ payload))
          ((stage_record io off bucket id version payload
              >> read_record io off (record_header_len file + length payload) id)
            (file, s))
  unfolding stage_record read_record
  read_record-stage_record off bucket id version payload file s h hb hi hv bytes bound =
      let wb = file.with_bucket in
      let head = record_header_of file.integrity bucket id version payload in
      let size = length-record wb head payload in
      let v : IsHeader head =
        record_header_of-IsHeader file.integrity bucket id version payload hb hi hv (omega arith)
          bytes in
      Returns-bind (stage_record io off bucket id version payload) _
        (stage_record_lem io reliable off bucket id version payload file s h bound)
        (λ u mid (st, kept).
          let there : read_cells (view mid.0.paged_file) off (header_len wb + length payload)
              ≡ image head wb ++ payload =
            ap (read_cells (view mid.0.paged_file) off) (sym size)
            ∙ read_cells-overlay off (image head wb ++ payload) (view mid.0.paged_file)
                (view file.paged_file) st.laid_over in
          subst
            (λ (q : DataFile).
              Returns (λ r _. (r.0 ≡ stored wb head) × (r.1 ≡ payload))
                (read_record io off (header_len wb + length payload) id (q, mid.1)))
            (sym kept)
            (Returns-weaken _
              (read_record_lem io reliable off bucket id version payload
                (record file { paged_file = mid.0.paged_file }) mid.1 st.coherent v bound there)
              (λ r after e. (e.0, e.1))))
