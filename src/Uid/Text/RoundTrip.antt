-- ===== src/Uid/Text/RoundTrip.antt =====
-- server/store/types/uid.go: what is read back from the texts of an id.
use server_chat.Common.{
  ℕ, ◌^◌, ◌<◌, ◌≡◌, ◌≢◌, inl, inr, refl, sym, ap, ◌∙◌, false, [], ◌∷◌, ◌++◌, ◌==◌, length,
  Bool-cases, arith, append-nil, ==_iff, ◌⊎◌,
}
use server_chat.Common.Result.{ok}
use server_chat.Uid.Base64.{encode}
use server_chat.Uid.Base64.Inverse.{decode-encode}
use server_chat.Uid.Words.{low_bytes, uint64, put_uint64, low_bytes-IsByte, uint64-put_uint64}
use server_chat.Uid.Text.{
  marshal_text, unmarshal_text, marshal_json, unmarshal_json, prefix_id, parse_user_id, user_id,
  cut_prefix, parse_uid, unmarshal_binary, marshal_binary,
}

length-encode_word : (uid : ℕ) → length (encode (put_uint64 uid)) ≡ 11
unfolding encode low_bytes
length-encode_word uid = refl

pub uint64_word : (uid : ℕ) → uid < 2 ^ 64 → uint64 (put_uint64 uid) ≡ uid
uint64_word uid h =
    let e : uint64 (put_uint64 uid ++ []) ≡ uid = uint64-put_uint64 uid [] h in rw append-nil at e

unmarshal_text-encode : (uid : ℕ) → uid < 2 ^ 64 → unmarshal_text (encode (put_uint64 uid)) ≡ ok uid
unfolding unmarshal_text
unmarshal_text-encode uid h =
    rw (length-encode_word uid, decode-encode (put_uint64 uid) (low_bytes-IsByte 8 uid))
      (rw (uint64_word uid h) (unfold low_bytes in refl))

pub unmarshal_text-marshal_text :
    (uid : ℕ) → uid ≢ 0 → uid < 2 ^ 64 → unmarshal_text (marshal_text uid) ≡ ok uid
unfolding marshal_text
unmarshal_text-marshal_text uid nonzero h =
    let e : (uid == 0) ≡ false = ground arith in rw e (unmarshal_text-encode uid h)

pub parse_user_id-user_id : (uid : ℕ) → uid < 2 ^ 64 → parse_user_id (user_id uid) ≡ uid
unfolding parse_user_id user_id prefix_id cut_prefix
parse_user_id-user_id uid h = elim (Bool-cases (uid == 0)) [
  | inl e ↦ rw e (sym ((==_iff uid 0).0 e))
  | inr e ↦ rw e (rw (unmarshal_text-encode uid h) refl)
]

parse_uid-marshal_text : (uid : ℕ) → uid < 2 ^ 64 → parse_uid (marshal_text uid) ≡ uid
unfolding parse_uid marshal_text
parse_uid-marshal_text uid h = elim (Bool-cases (uid == 0)) [
  | inl e ↦ rw e (sym ((==_iff uid 0).0 e))
  | inr e ↦ rw e (rw (unmarshal_text-encode uid h) refl)
]

unmarshal_binary-marshal_binary :
    (uid : ℕ) → uid < 2 ^ 64 → unmarshal_binary (marshal_binary uid) ≡ ok uid
unfolding unmarshal_binary marshal_binary low_bytes
unmarshal_binary-marshal_binary uid h = ap ok (uint64_word uid h)

unmarshal_json-quoted :
    (uid : ℕ)
    → unmarshal_json ((0x22 ∷ encode (put_uint64 uid)) ++ (0x22 ∷ []))
      ≡ unmarshal_text (encode (put_uint64 uid))
unfolding unmarshal_json encode low_bytes
unmarshal_json-quoted uid = refl

unmarshal_json-marshal_json :
    (uid : ℕ) → uid < 2 ^ 64 → (uid ≡ 0) ⊎ (unmarshal_json (marshal_json uid) ≡ ok uid)
unfolding marshal_json
unmarshal_json-marshal_json uid h = elim (Bool-cases (uid == 0)) [
  | inl e ↦ inl ((==_iff uid 0).0 e)
  | inr e ↦ inr (rw e (unmarshal_json-quoted uid ∙ unmarshal_text-encode uid h))
]

-- An id of 64 bits is read back from its text, its user name and its bytes, and, unless it is zero,
-- from its JSON.
pub marshal_lem :
    (uid : ℕ)
    → uid < 2 ^ 64
    → (parse_uid (marshal_text uid) ≡ uid)
      × (parse_user_id (user_id uid) ≡ uid)
      × (unmarshal_binary (marshal_binary uid) ≡ ok uid)
      × ((uid ≡ 0) ⊎ (unmarshal_json (marshal_json uid) ≡ ok uid))
marshal_lem uid h = (
  parse_uid-marshal_text uid h,
  parse_user_id-user_id uid h,
  unmarshal_binary-marshal_binary uid h,
  unmarshal_json-marshal_json uid h,
)
