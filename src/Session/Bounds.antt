-- ===== src/Session/Bounds.antt =====
-- internal/server/session_queue.go and session_serialize.go: the size of a frame.
use mathlib.Core.List.{Memᴰ}
use mathlib.Core.List.Memᴰ.{head, tail}
use server_chat.Common.{
  ◌+◌, ◌≤◌, ◌<◌, ◌≡◌, refl, ap, ◌∙◌, arith, true, false, Bool-cases, ◌&&◌, inl, inr, ◌⊎◌, List, [],
  ◌∷◌, ◌++◌, All, All-append, ◌==◌, ltb, length, length-append, append_assoc,
}
use server_chat.Common.Bytes.{Bytes, codes}
use server_chat.Session.{
  Writer, prefix, suffix, separator, max_frame_size, flush, make_room, write, put, put_all,
  serialize_batch,
}

module _ (all : List Bytes) where
  -- The frame is within the limit, or it is the envelope around one of the messages.
  abbrev pub IsBounded : Bytes → Type 0
  IsBounded frame =
      (length frame ≤ max_frame_size)
      ⊎ ((raw : Bytes) × Memᴰ raw all × (frame ≡ prefix ++ raw ++ suffix))

  -- What the buffer holds: nothing, one message, or several that fit.
  data Holds (w : Writer) : Type 0 where
    nothing : w.count ≡ 0 → w.buffer ≡ prefix → Holds w
    one : (raw : Bytes) → 0 < w.count → Memᴰ raw all → w.buffer ≡ prefix ++ raw → Holds w
    several : 0 < w.count → length w.buffer + 2 ≤ max_frame_size → Holds w

  abbrev Fits : Writer → Type 0
  Fits w = All IsBounded w.frames × Holds w

  closed-IsBounded :
      (w : Writer) → Holds w → (w.count == 0) ≡ false → IsBounded (w.buffer ++ suffix)
  closed-IsBounded w (nothing c b) n = absurd (ground arith)
  closed-IsBounded w (one raw c m b) n =
      inr (raw, m, ap (λ s. s ++ suffix) b ∙ append_assoc prefix raw suffix)
  closed-IsBounded w (several c l) n = inl (omega (arith, length-append w.buffer suffix))

  flush-Fits : (w : Writer) → Fits w → Fits (flush w)
  unfolding flush
  flush-Fits w (f, h) = elim (Bool-cases (w.count == 0)) [
    | inl e ↦ rw (e, flush) (f, h)
    | inr e ↦
        rw (e, flush)
          (All-append IsBounded w.frames _ f (closed-IsBounded w h e, tt), nothing refl refl)
  ]

  -- After `make_room` the message fits, or the buffer is empty.
  abbrev HasRoom : Bytes → Writer → Type 0
  HasRoom raw w =
      ((w.count ≡ 0) × (w.buffer ≡ prefix))
      ⊎ ((ltb 0 w.count ≡ true) × (length w.buffer + 1 + length raw + 2 ≤ max_frame_size))

  flush-HasRoom : (raw : Bytes) (w : Writer) → ltb 0 w.count ≡ true → HasRoom raw (flush w)
  unfolding flush
  flush-HasRoom raw w c =
      let some_in : (w.count == 0) ≡ false = ground arith in rw (some_in, flush) (inl (refl, refl))

  Holds-HasRoom :
      (raw : Bytes) (w : Writer)
      → Holds w
      → (ltb 0 w.count
          && ltb max_frame_size (length w.buffer + separator w.count + length raw + length suffix))
        ≡ false
      → HasRoom raw w
  Holds-HasRoom raw w (nothing c b) e = inl (c, b)
  Holds-HasRoom raw w (one old c m b) e = inr (ground arith, ground arith)
  Holds-HasRoom raw w (several c l) e = inr (ground arith, ground arith)

  make_room-Fits :
      (raw : Bytes) (w : Writer) → Fits w → Fits (make_room raw w) × HasRoom raw (make_room raw w)
  unfolding make_room
  make_room-Fits raw w (f, h) =
      elim (Bool-cases (
        ltb 0 w.count
        && ltb max_frame_size (length w.buffer + separator w.count + length raw + length suffix))) [
          | inl e ↦ rw (e, make_room) (flush-Fits w (f, h), flush-HasRoom raw w (ground arith))
          | inr e ↦ rw (e, make_room) ((f, h), Holds-HasRoom raw w h e)
        ]

  write-Fits :
      (raw : Bytes) (w : Writer) → Memᴰ raw all → HasRoom raw w → Fits w → Fits (write raw w)
  unfolding write
  write-Fits raw w m (inl (c, b)) (f, h) =
      let none_in : ltb 0 w.count ≡ false = ground arith in
      (f, one raw (omega arith) m (rw (none_in, b, write)))
  write-Fits raw w m (inr (c, l)) (f, h) = (
    f,
    several (omega arith) (
        rw (c, write)
          (omega (
            arith,
            l,
            length-append (w.buffer ++ codes ",") raw,
            length-append w.buffer (codes ","),
          ))),
  )

  put-cases :
      (raw : Bytes) (w : Writer) → (put raw w ≡ w) ⊎ (put raw w ≡ write raw (make_room raw w))
  unfolding put
  put-cases raw w = elim (Bool-cases (length raw == 0)) [
    | inl e ↦ inl (rw (e, put))
    | inr e ↦ inr (rw (e, put))
  ]

  put-Fits : (raw : Bytes) (w : Writer) → Memᴰ raw all → Fits w → Fits (put raw w)
  put-Fits raw w m fit = elim (put-cases raw w) [
    | inl e ↦ rw e fit
    | inr e ↦ let (room, has) = make_room-Fits raw w fit in rw e (write-Fits raw _ m has room)
  ]

  put_all-Fits :
      (msgs : List Bytes) (w : Writer)
      → All (λ raw. Memᴰ raw all) msgs
      → Fits w
      → Fits (put_all msgs w)
  unfolding put_all
  put_all-Fits [] w h fit = fit
  put_all-Fits (raw ∷ msgs) w h fit = put_all-Fits msgs _ h.1 (put-Fits raw w h.0 fit)

All-Memᴰ :
    (all msgs : List Bytes)
    → ((raw : Bytes) → Memᴰ raw msgs → Memᴰ raw all)
    → All (λ raw. Memᴰ raw all) msgs
All-Memᴰ all [] f = tt
All-Memᴰ all (raw ∷ msgs) f = (f raw (head refl), All-Memᴰ all msgs (λ r m. f r (tail m)))

-- Each frame that is written for a batch is within the limit on frames, or it is the envelope
-- around one of the messages.
pub serialize_batch-IsBounded : (msgs : List Bytes) → All (IsBounded msgs) (serialize_batch msgs)
unfolding serialize_batch
serialize_batch-IsBounded msgs =
    (flush-Fits msgs _
      (put_all-Fits msgs msgs _ (All-Memᴰ msgs msgs (λ raw m. m)) (tt, nothing refl refl))).0
