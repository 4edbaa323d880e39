-- ===== src/Uid/Peers/RoundTrip.antt =====
-- server/store/types/uid.go: what is read back from the name of a P2P topic.
use server_chat.Common.{
  ℕ, ◌^◌, ◌<◌, ◌≡◌, ◌≢◌, ◌⊎◌, inl, inr, refl, sym, ap, ◌∙◌, true, false, ◌++◌, ◌==◌, length,
  All-append, min, max, arith,
}
use server_chat.Common.Bytes.{Bytes, codes}
use server_chat.Common.Result.{ok}
use server_chat.Uid.Base64.{encode}
use server_chat.Uid.Base64.Inverse.{decode-encode, IsByte}
use server_chat.Uid.Words.{low_bytes, uint64, put_uint64, low_bytes-IsByte, uint64-put_uint64}
use server_chat.Uid.Text.{user_id, cut_prefix}
use server_chat.Uid.Text.RoundTrip.{uint64_word}
use server_chat.Uid.Peers.{p2p_name, parse_p2p, p2p_name_for_user, read_pair}

length-encode_pair : (a b : ℕ) → length (encode (put_uint64 a ++ put_uint64 b)) ≡ 22
unfolding encode low_bytes
length-encode_pair a b = refl

read_pair-words :
    (a b : ℕ)
    → a < 2 ^ 64
    → b < 2 ^ 64
    → read_pair (record { written = put_uint64 a ++ put_uint64 b; fine = true }) ≡ ok (a, b)
read_pair-words a b ha hb = words ∙ ap ok pair
  where
    words :
        read_pair (record { written = put_uint64 a ++ put_uint64 b; fine = true })
        ≡ ok (uint64 (put_uint64 a ++ put_uint64 b), uint64 (put_uint64 b))
    words = unfold read_pair low_bytes in refl

    pair : ◌≡◌ {A = ℕ × ℕ} (uint64 (put_uint64 a ++ put_uint64 b), uint64 (put_uint64 b)) (a, b)
    pair = rw (uint64-put_uint64 a (put_uint64 b) ha, uint64_word b hb) refl

parse_p2p-encode :
    (a b : ℕ)
    → a < 2 ^ 64
    → b < 2 ^ 64
    → parse_p2p (codes "p2p" ++ encode (put_uint64 a ++ put_uint64 b)) ≡ ok (a, b)
unfolding parse_p2p cut_prefix
parse_p2p-encode a b ha hb = rw (length-encode_pair a b) (
    rw
      (decode-encode (put_uint64 a ++ put_uint64 b) (
        All-append IsByte (put_uint64 a) (put_uint64 b) (low_bytes-IsByte 8 a)
          (low_bytes-IsByte 8 b)))
      (read_pair-words a b ha hb))

p2p_name_below :
    (a b : ℕ) → a ≢ 0 → a < b → p2p_name a b ≡ codes "p2p" ++ encode (put_uint64 a ++ put_uint64 b)
unfolding p2p_name
p2p_name_below a b nonzero h = ground arith

p2p_name_above :
    (a b : ℕ) → a ≢ 0 → a < b → p2p_name b a ≡ codes "p2p" ++ encode (put_uint64 a ++ put_uint64 b)
unfolding p2p_name
p2p_name_above a b nonzero h = ground arith

-- What a name says of two ids: the smaller one, the larger one, and each to the other.
record IsLink (name : Bytes) (low high : ℕ) : Type 0 where
  parsed : parse_p2p name ≡ ok (low, high)
  to_low : p2p_name_for_user low name ≡ ok (user_id high)
  to_high : p2p_name_for_user high name ≡ ok (user_id low)

module _ (low high : ℕ) (nonzero : low ≢ 0) (less : low < high) (small : high < 2 ^ 64) where
  encoded-IsLink : IsLink (codes "p2p" ++ encode (put_uint64 low ++ put_uint64 high)) low high
  unfolding p2p_name_for_user
  encoded-IsLink =
      let name = codes "p2p" ++ encode (put_uint64 low ++ put_uint64 high) in
      let e : parse_p2p name ≡ ok (low, high) = parse_p2p-encode low high (omega arith) small in
      let same : (low == low) ≡ true = ground arith in
      let differ : (high == low) ≡ false = ground arith in
      record { parsed = e; to_low = rw (e, same) refl; to_high = rw (e, differ) refl }

  p2p_name-below : IsLink (p2p_name low high) low high
  p2p_name-below = rw (p2p_name_below low high nonzero less) encoded-IsLink

  names_equal : p2p_name high low ≡ p2p_name low high
  names_equal = p2p_name_above low high nonzero less ∙ sym (p2p_name_below low high nonzero less)

-- Two different ids that are not zero and have 64 bits give one P2P name in both orders; the
-- smaller and the larger id are read back from it, and it names to each of the two users the other
-- one.
pub p2p_name_lem :
    (a b : ℕ)
    → a ≢ 0
    → b ≢ 0
    → a ≢ b
    → a < 2 ^ 64
    → b < 2 ^ 64
    → (p2p_name a b ≡ p2p_name b a)
      × (parse_p2p (p2p_name a b) ≡ ok (min a b, max a b))
      × (p2p_name_for_user a (p2p_name a b) ≡ ok (user_id b))
      × (p2p_name_for_user b (p2p_name a b) ≡ ok (user_id a))
p2p_name_lem a b na nb differ ha hb = elim (order a b differ) [
  | inl less ↦
      let link = p2p_name-below a b na less hb in
      let low : min a b ≡ a = omega arith in
      let high : max a b ≡ b = omega arith in
      rw (low, high) (sym (names_equal a b na less hb), link.parsed, link.to_low, link.to_high)
  | inr less ↦
      let link = p2p_name-below b a nb less ha in
      let low : min a b ≡ b = omega arith in
      let high : max a b ≡ a = omega arith in
      rw (low, high, names_equal b a nb less ha) (refl, link.parsed, link.to_high, link.to_low)
]
  where
    order : (x y : ℕ) → x ≢ y → (x < y) ⊎ (y < x)
    order x y h = ground arith
