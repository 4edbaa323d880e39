-- ===== src/Uid/Peers.antt =====
-- server/store/types/uid.go: the names of P2P topics.
pub mod RoundTrip
use server_chat.Common.{
  ℕ, Bool, true, false, Option, none, some, List, [], ◌∷◌, ◌++◌, ◌==◌, ltb, length, take,
  from_index, if◌then◌else◌, zero, suc,
}
use server_chat.Common.Bytes.{Bytes, codes}
use server_chat.Common.Result.{Result, ok, err}
use server_chat.Uid.Base64.{Decoded, encode, decode}
use server_chat.Uid.Words.{uint64}
use server_chat.Uid.Text.{
  UidErr, invalid_length, failed_to_decode, invalid_prefix, zero_uid, marshal_binary, user_id,
  cut_prefix,
}

abbrev pub p2p_base64_unpadded : ℕ
p2p_base64_unpadded = 22

-- The bytes of two ids, the smaller one first.
abbrev pub pair_bytes : ℕ → ℕ → Bytes
pair_bytes low high = marshal_binary low ++ marshal_binary high

-- P2PName
unfoldable pub p2p_name : ℕ → ℕ → Bytes
unfolding marshal_binary
p2p_name uid u2 =
    if uid == zero_uid
    then []
    else if u2 == zero_uid
    then []
    else if ltb uid u2
    then codes "p2p" ++ encode (pair_bytes uid u2)
    else if ltb u2 uid
    then codes "p2p" ++ encode (pair_bytes u2 uid)
    else []

unfoldable pub read_pair : Decoded → Result UidErr (ℕ × ℕ)
read_pair dec =
    if ltb (length dec.written) 16
    then err failed_to_decode
    else if dec.fine
    then ok (uint64 dec.written, uint64 (from_index 8 dec.written))
    else err failed_to_decode

unfoldable pub parse_peers : Option Bytes → Result UidErr (ℕ × ℕ)
unfolding read_pair
parse_peers none = err invalid_prefix
parse_peers (some src) =
    if length src == p2p_base64_unpadded then read_pair (decode src) else err invalid_length

-- ParseP2P
unfoldable pub parse_p2p : Bytes → Result UidErr (ℕ × ℕ)
unfolding parse_peers cut_prefix
parse_p2p p2p = parse_peers (cut_prefix (codes "p2p") p2p)

abbrev pub other_of : ℕ → Result UidErr (ℕ × ℕ) → Result UidErr Bytes
other_of uid (err e) = err e
other_of uid (ok (uid1, uid2)) = ok (if uid == uid1 then user_id uid2 else user_id uid1)

-- P2PNameForUser; `Compare` gives 0 for equal ids.
unfoldable pub p2p_name_for_user : ℕ → Bytes → Result UidErr Bytes
unfolding parse_p2p user_id
p2p_name_for_user uid p2p = other_of uid (parse_p2p p2p)
