-- ===== src/Io/Slice/Reads.antt =====
-- The slice transport delivers its bytes in order, each once.
use clickhouse_c_rs.Base.{
  drop-drop, take-append, Bool-cases, inl, inr, append_assoc, ℕ, ◌+◌, ◌-◌, ◌≤◌, ◌≡◌, refl, ap, sym,
  ◌∙◌, List, [], ◌∷◌, ◌++◌, Bytes, take, drop, length, min, arith, length-take, length-drop,
  length-append, append_assoc, take-append-drop, ltb,
}
use clickhouse_c_rs.Sys
use clickhouse_c_rs.Io.Slice.{SliceIo, slice_read, remaining, new}

-- The bytes that are still to be read.
abbrev pub unread : SliceIo → Bytes
unread io = drop io.read_at io.bytes

pub record IsValid (io : SliceIo) : Type 0 where
  pub within : io.read_at ≤ length io.bytes

-- A read takes the next bytes, as many as are asked for and left, puts them at the front of the
-- buffer, leaves the rest of the buffer alone, and returns their number and CHC_OK.
pub slice_read-unread :
    (h : Sys.Header) (io : SliceIo) (buf : Bytes) (len : ℕ)
    → IsValid io
    → let r = slice_read h io buf len in
      IsValid r.io
      × (r.rc ≡ h.code Sys.chc_ok)
      × (r.out_n ≡ min len (length (unread io)))
      × (r.buf ≡ take r.out_n (unread io) ++ drop r.out_n buf)
      × (unread r.io ≡ drop r.out_n (unread io))
      × (remaining r.io + r.out_n ≡ remaining io)
unfolding slice_read remaining
slice_read-unread h io buf len v =
    let n : ℕ = min len (length io.bytes - io.read_at) in
    elim (Bool-cases (ltb 0 n)) [
      | inl some_left ↦ rw some_left (
        record { within = omega arith },
        refl,
        omega (arith, length-drop io.read_at io.bytes),
        refl,
        sym (drop-drop io.read_at n io.bytes),
        omega arith,
      )
      | inr none_left ↦
          let empty : n ≡ 0 = ground arith in
          rw none_left (
            v,
            refl,
            omega (arith, length-drop io.read_at io.bytes),
            rw empty,
            rw empty,
            omega arith,
          )
    ]

-- A buffer for every request, and what the reader takes from each.
pub reads : Sys.Header → SliceIo → List Bytes → Bytes × SliceIo
reads h io [] = ([], io)
reads h io (buf ∷ bufs) =
    let r = slice_read h io buf (length buf) in
    let (out, last) = reads h r.io bufs in (take r.out_n r.buf ++ out, last)

-- What the buffer holds after a read, as far as the count reaches.
taken :
    (h : Sys.Header) (io : SliceIo) (buf : Bytes) (len : ℕ)
    → IsValid io
    → let r = slice_read h io buf len in take r.out_n r.buf ++ unread r.io ≡ unread io
taken h io buf len v =
    let r = slice_read h io buf len in
    let (valid, code, count, filled, left, rest) = slice_read-unread h io buf len v in
    let n : ℕ = r.out_n in
    rw (filled, left)
      (ap (λ t. t ++ drop n (unread io))
          (take-append n (take n (unread io)) (drop n buf)
            (omega (arith, length-take n (unread io))))
        ∙ take-append-drop n (unread io))

reads_keep :
    (h : Sys.Header) (io : SliceIo) (bufs : List Bytes)
    → IsValid io
    → ((reads h io bufs).0 ++ unread (reads h io bufs).1 ≡ unread io) × IsValid (reads h io bufs).1
unfolding reads
reads_keep h io [] v = (refl, v)
reads_keep h io (buf ∷ bufs) v =
    let r = slice_read h io buf (length buf) in
    let later = reads_keep h r.io bufs (slice_read-unread h io buf (length buf) v).0 in
    (
      append_assoc (take r.out_n r.buf) (reads h r.io bufs).0 _
          ∙ ap (λ t. take r.out_n r.buf ++ t) later.0
          ∙ taken h io buf (length buf) v,
      later.1,
    )

-- However the reads are sized, what they deliver followed by what is still unread is the slice, in
-- order: nothing is lost, repeated or moved.
pub reads-unread :
    (h : Sys.Header) (bytes : Bytes) (bufs : List Bytes)
    → let (out, last) = reads h (new bytes) bufs in
      (out ++ unread last ≡ bytes) × (length out + remaining last ≡ length bytes)
unfolding remaining
reads-unread h bytes bufs =
    let (out, last) = reads h (new bytes) bufs in
    let all = reads_keep h (new bytes) bufs (record { within = omega arith }) in
    (
      all.0,
      omega (
        arith,
        length-append out (unread last),
        length-drop last.read_at last.bytes,
        ap length all.0,
      ),
    )
