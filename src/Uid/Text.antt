-- ===== src/Uid/Text.antt =====
-- server/store/types/uid.go: the text and the JSON of an id, the names that carry it, and the names
-- of groups and channels.
pub mod RoundTrip
pub mod Channels
use server_chat.Common.{
  ℕ, ◌+◌, ◌-◌, ◌*◌, ◌/◌, Bool, true, false, ◌||◌, Option, none, some, List, [], ◌∷◌, ◌++◌, ◌==◌,
  ltb, length, get_elem?, take, if◌then◌else◌,
}
use server_chat.Common.Bytes.{Bytes, codes}
use server_chat.Common.Result.{Result, ok, err}
use server_chat.Uid.Base64.{Decoded, encode, decode}
use server_chat.Uid.Words.{put_uint64, uint64}

-- The errors of uid.go. The text of `failed_to_decode` may carry the decoder's.
pub data UidErr : Type 0 where
  invalid_length failed_to_decode unrecognized invalid_prefix : UidErr

abbrev pub zero_uid : ℕ
zero_uid = 0

abbrev pub uid_base64_unpadded : ℕ
uid_base64_unpadded = 11

-- MarshalBinary
unfoldable pub marshal_binary : ℕ → Bytes
marshal_binary uid = put_uint64 uid

-- UnmarshalBinary
unfoldable pub unmarshal_binary : Bytes → Result UidErr ℕ
unmarshal_binary b = if ltb (length b) 8 then err invalid_length else ok (uint64 b)

unfoldable pub read_uid : Decoded → Result UidErr ℕ
read_uid dec = if ltb (length dec.written) 8 then err failed_to_decode else ok (uint64 dec.written)

-- UnmarshalText
unfoldable pub unmarshal_text : Bytes → Result UidErr ℕ
unfolding read_uid
unmarshal_text src =
    if length src == uid_base64_unpadded then read_uid (decode src) else err invalid_length

-- MarshalText, which reports no error. `String` is the same text.
unfoldable pub marshal_text : ℕ → Bytes
marshal_text uid = if uid == zero_uid then [] else encode (put_uint64 uid)

abbrev pub quote : ℕ
quote = 0x22

-- MarshalJSON
unfoldable pub marshal_json : ℕ → Bytes
unfolding marshal_text
marshal_json uid = (quote ∷ marshal_text uid) ++ (quote ∷ [])

abbrev pub is_quote : Option ℕ → Bool
is_quote none = false
is_quote (some c) = c == quote

-- `b[1:]`
abbrev pub tail : Bytes → Bytes
tail [] = []
tail (c ∷ b) = b

-- UnmarshalJSON
unfoldable pub unmarshal_json : Bytes → Result UidErr ℕ
unfolding unmarshal_text
unmarshal_json b =
    if length b == uid_base64_unpadded + 2
    then (if is_quote (get_elem? b 0)
        then (if is_quote (get_elem? b (length b - 1))
            then unmarshal_text (take (length b - 2) (tail b))
            else err unrecognized)
        else err unrecognized)
    else err invalid_length

-- The id that is left in the variable, which an error does not set.
abbrev pub or_zero : Result UidErr ℕ → ℕ
or_zero (ok uid) = uid
or_zero (err _) = zero_uid

-- ParseUid
unfoldable pub parse_uid : Bytes → ℕ
unfolding unmarshal_text
parse_uid s = or_zero (unmarshal_text s)

-- PrefixId
unfoldable pub prefix_id : ℕ → Bytes → Bytes
unfolding marshal_text
prefix_id uid prefix = if uid == zero_uid then [] else prefix ++ marshal_text uid

-- UserId
unfoldable pub user_id : ℕ → Bytes
unfolding prefix_id
user_id uid = prefix_id uid (codes "usr")

-- FndName
unfoldable pub fnd_name : ℕ → Bytes
unfolding prefix_id
fnd_name uid = prefix_id uid (codes "fnd")

-- SlfName
unfoldable pub slf_name : ℕ → Bytes
unfolding prefix_id
slf_name uid = prefix_id uid (codes "slf")

-- strings.CutPrefix
unfoldable pub cut_prefix : Bytes → Bytes → Option Bytes
cut_prefix [] s = some s
cut_prefix (p ∷ prefix) [] = none
cut_prefix (p ∷ prefix) (c ∷ s) = let rest = cut_prefix prefix s in if p == c then rest else none

abbrev pub parse_after : Option Bytes → ℕ
parse_after none = zero_uid
parse_after (some src) = or_zero (unmarshal_text src)

-- ParseUserId
unfoldable pub parse_user_id : Bytes → ℕ
unfolding cut_prefix unmarshal_text
parse_user_id s = parse_after (cut_prefix (codes "usr") s)

abbrev replaced : Option Bytes → Bytes → Option Bytes → Bytes → Bytes
replaced (some rest) to _ s = to ++ rest
replaced none to (some _) s = s
replaced none to none s = []

-- GrpToChn
unfoldable pub grp_to_chn : Bytes → Bytes
unfolding cut_prefix
grp_to_chn grp =
    replaced (cut_prefix (codes "grp") grp) (codes "chn") (cut_prefix (codes "chn") grp) grp

-- ChnToGrp
unfoldable pub chn_to_grp : Bytes → Bytes
unfolding cut_prefix
chn_to_grp chn =
    replaced (cut_prefix (codes "chn") chn) (codes "grp") (cut_prefix (codes "grp") chn) chn

abbrev found : Option Bytes → Bool
found none = false
found (some _) = true

-- IsChannel
unfoldable pub is_channel : Bytes → Bool
unfolding cut_prefix
is_channel name = found (cut_prefix (codes "chn") name)
