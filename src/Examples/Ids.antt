-- ===== src/Examples/Ids.antt =====
-- Ids and their texts on small inputs.
use server_chat.Common.{ℕ, ◌≡◌, refl, ◌⊎◌, min, max, true, false, List, [], ◌∷◌, arith}
use server_chat.Common.Bytes.{codes}
use server_chat.Common.Result.{ok, err}
use server_chat.Uid.Base64.{encode, decode, digit_char}
use server_chat.Uid.Words.{low_bytes}
use server_chat.Uid.Text.{
  invalid_length, marshal_text, parse_uid, user_id, parse_user_id, marshal_binary, unmarshal_binary,
  marshal_json, unmarshal_json, grp_to_chn, chn_to_grp,
}
use server_chat.Uid.Text.RoundTrip.{marshal_lem}
use server_chat.Uid.Text.Channels.{names_agree}
use server_chat.Uid.Peers.{p2p_name, parse_p2p, p2p_name_for_user}
use server_chat.Uid.Peers.RoundTrip.{p2p_name_lem}
use server_chat.Uid.Slice.{contains}
use server_chat.Uid.Slice.Refinement.{
  add_op, rem_op, contains_op, answers, set_answers, answers-IsSet,
}

one_text : user_id 1 ≡ codes "usrAQAAAAAAAAA"
unfolding user_id encode digit_char low_bytes
one_text = refl

zero_json : unmarshal_json (marshal_json 0) ≡ err invalid_length
unfolding unmarshal_json marshal_json
zero_json = refl

bad_text : parse_uid (codes "AQAAAAAAAA!") ≡ 0
unfolding parse_uid decode
bad_text = refl

channel_name : grp_to_chn (codes "grpAbc") ≡ codes "chnAbc"
unfolding grp_to_chn
channel_name = refl

slice_run :
    answers (add_op 5 ∷ add_op 3 ∷ add_op 5 ∷ rem_op 3 ∷ contains_op 3 ∷ contains_op 5 ∷ []) []
    ≡ true ∷ true ∷ false ∷ true ∷ false ∷ true ∷ []
unfolding answers
slice_run = refl

abbrev some_id : ℕ
some_id = 77

marshal_lem_example :
    (parse_uid (marshal_text some_id) ≡ some_id)
    × (parse_user_id (user_id some_id) ≡ some_id)
    × (unmarshal_binary (marshal_binary some_id) ≡ ok some_id)
    × ((some_id ≡ 0) ⊎ (unmarshal_json (marshal_json some_id) ≡ ok some_id))
marshal_lem_example = marshal_lem some_id (omega arith)

channel_names :
    (chn_to_grp (grp_to_chn (codes "grpAbc")) ≡ chn_to_grp (codes "grpAbc"))
    × (grp_to_chn (chn_to_grp (codes "grpAbc")) ≡ grp_to_chn (codes "grpAbc"))
channel_names = names_agree (codes "grpAbc")

p2p_name_lem_example :
    (p2p_name 9 4 ≡ p2p_name 4 9)
    × (parse_p2p (p2p_name 9 4) ≡ ok (min 9 4, max 9 4))
    × (p2p_name_for_user 9 (p2p_name 9 4) ≡ ok (user_id 4))
    × (p2p_name_for_user 4 (p2p_name 9 4) ≡ ok (user_id 9))
p2p_name_lem_example =
    p2p_name_lem 9 4 (omega arith) (omega arith) (omega arith) (omega arith) (omega arith)

abbrev three_ids : List ℕ
three_ids = 2 ∷ 5 ∷ 9 ∷ []

answers-IsSet_example :
    answers (add_op 4 ∷ contains_op 4 ∷ rem_op 9 ∷ []) three_ids
    ≡ set_answers (add_op 4 ∷ contains_op 4 ∷ rem_op 9 ∷ []) (contains three_ids)
answers-IsSet_example =
    answers-IsSet (add_op 4 ∷ contains_op 4 ∷ rem_op 9 ∷ []) three_ids (omega arith)
