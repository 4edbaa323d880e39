-- ===== src/Session/Frames.antt =====
-- internal/server/session_queue.go and session_serialize.go: what is reserved for a batch, and what is written for it.
use server_chat.Common.{
  ℕ, ◌+◌, ◌<◌, ◌≡◌, refl, ◌∙◌, arith, Bool, true, false, Bool-cases, ◌&&◌, inl, inr, List, [], ◌∷◌,
  ◌++◌, All, ◌==◌, ltb, length, length-append,
}
use server_chat.Common.Bytes.{Bytes, codes}
use server_chat.Session.{
  Writer, Tally, prefix, suffix, separator, max_frame_size, flush, make_room, write, put, put_all,
  serialize_batch, open_next, add_size, add_all, total_size, finish_tally, json_batch_queue_size,
}

total_size-append : (xs ys : List Bytes) → total_size (xs ++ ys) ≡ total_size xs + total_size ys
total_size-append [] ys = omega arith
total_size-append (x ∷ xs) ys = omega (arith, total_size-append xs ys)

-- The writer and the tally are in the same place.
record Agrees (w : Writer) (y : Tally) : Type 0 where
  sizes : total_size w.frames ≡ y.total
  buffered : length w.buffer ≡ length prefix + y.current
  counts : w.count ≡ y.count

total_size-flushed :
    (w : Writer)
    → total_size (w.frames ++ (w.buffer ++ suffix) ∷ [])
      ≡ total_size w.frames + (length w.buffer + length suffix)
total_size-flushed w =
    omega
      (arith, total_size-append w.frames ((w.buffer ++ suffix) ∷ []), length-append w.buffer suffix)

-- Whether a message does not fit, from the size of the buffer.
abbrev is_full : ℕ → ℕ → ℕ → Bool
is_full count used size =
    ltb 0 count && ltb max_frame_size (used + separator count + size + length suffix)

make_room-Agrees :
    (raw : Bytes) (w : Writer) (y : Tally)
    → Agrees w y
    → Agrees (make_room raw w) (open_next (length raw) y)
unfolding make_room open_next flush
make_room-Agrees raw w y a =
    let same : is_full w.count (length w.buffer) (length raw)
        ≡ is_full y.count (length prefix + y.current) (length raw) =
      rw (a.counts, a.buffered) refl in
    elim (Bool-cases (is_full y.count (length prefix + y.current) (length raw))) [
      | inl e ↦
          let some_in : (w.count == 0) ≡ false = ground (arith, a.counts) in
          rw (same ∙ e, make_room, e, open_next, some_in, flush)
            record {
              sizes = omega (arith, total_size-flushed w, a.sizes, a.buffered);
              buffered = refl;
              counts = refl;
            }
      | inr e ↦ rw (same ∙ e, make_room, e, open_next) a
    ]

write-Agrees :
    (raw : Bytes) (w : Writer) (y : Tally)
    → Agrees w y
    → Agrees (write raw w) (add_size (length raw) y)
unfolding write add_size
write-Agrees raw w y a = record {
  sizes = a.sizes;
  buffered = elim (Bool-cases (ltb 0 w.count)) [
    | inl e ↦
        let sep : ltb 0 y.count ≡ true = rw (← a.counts) e in
        rw (e, write, sep)
          (omega (
            arith,
            length-append (w.buffer ++ codes ",") raw,
            length-append w.buffer (codes ","),
            a.buffered,
          ))
    | inr e ↦
        let sep : ltb 0 y.count ≡ false = rw (← a.counts) e in
        rw (e, write, sep) (omega (arith, length-append w.buffer raw, a.buffered))
  ];
  counts = omega (arith, a.counts);
}

put_all-Agrees :
    (msgs : List Bytes) (w : Writer) (y : Tally)
    → All (λ raw. 0 < length raw) msgs
    → Agrees w y
    → Agrees (put_all msgs w) (add_all msgs y)
unfolding put_all put add_all
put_all-Agrees [] w y h a = a
put_all-Agrees (raw ∷ msgs) w y h a =
    let full : (length raw == 0) ≡ false = ground (arith, h.0) in
    rw (full, put) (put_all-Agrees msgs _ _ h.1 (write-Agrees raw _ _ (make_room-Agrees raw w y a)))

flush-total_size :
    (w : Writer) (y : Tally) → Agrees w y → total_size (flush w).frames ≡ finish_tally y
unfolding flush finish_tally
flush-total_size w y a = elim (Bool-cases (ltb 0 y.count)) [
  | inl e ↦
      let some_in : (w.count == 0) ≡ false = ground (arith, a.counts) in
      rw (e, finish_tally, some_in, flush)
        (omega (arith, total_size-flushed w, a.sizes, a.buffered))
  | inr e ↦
      let empty : (w.count == 0) ≡ true = ground (arith, a.counts) in
      rw (e, finish_tally, empty, flush) a.sizes
]

-- For messages with a text that is not empty, the size that is reserved for a batch is the total
-- size of the frames that are written for it.
pub serialize_batch-total_size :
    (msgs : List Bytes)
    → All (λ raw. 0 < length raw) msgs
    → total_size (serialize_batch msgs) ≡ json_batch_queue_size msgs true
unfolding serialize_batch json_batch_queue_size
serialize_batch-total_size msgs h =
    flush-total_size _ _
      (put_all-Agrees msgs _ _ h record { sizes = refl; buffered = refl; counts = refl })
