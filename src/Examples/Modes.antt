-- ===== src/Examples/Modes.antt =====
-- Permission modes and roles: the theorems on concrete modes.
use server_chat.Common.{ℕ, ◌≡◌, ◌↔◌, refl, ◌<◌, true, false, arith, ◌&&◌, bit_and}
use server_chat.Common.Bytes.{codes, eq_bytes}
use server_chat.Common.Bits.{◌&^◌}
use server_chat.Common.Result.{ok}
use server_chat.Access.{better_equal, better_than, is_joiner, is_reader, is_writer, is_owner}
use server_chat.Access.Flags.{is_writer-bit_and}
use server_chat.Access.Mode
use server_chat.Access.Order.{better_equal_iff, better_than_iff, better_equal_exact, Grants}
use server_chat.Access.Text.{marshal_text, mode_string, parse_acs, unmarshal_text}
use server_chat.Access.Text.RoundTrip.{unmarshal_text-marshal_text}
use server_chat.Access.Delta.{delta, apply_mutation, apply_delta, apply_chunk}
use server_chat.Access.Delta.RoundTrip.{apply_mutation-delta}
use server_chat.Access.Delta.Bounds.{apply_mutation-lt}
use server_chat.Access.Delta.Chunks.{applied, apply_all, signed_chunks, apply_delta-applied}
use server_chat.Topic.Roles.{resolve_topic_role}
use server_chat.Topic.Roles.RoundTrip.{IsSafe, resolve_topic_role-IsSafe}

-- JRPAS and JRWS
abbrev old_mode : ℕ
old_mode = 0x3B

abbrev new_mode : ℕ
new_mode = 0x27

-- "+W-PA", the example of the source.
delta_text : delta old_mode new_mode ≡ codes "+W-PA"
unfolding delta mode_string ◌&^◌
delta_text = refl

apply_mutation-delta_example : apply_mutation old_mode (delta old_mode new_mode) ≡ ok new_mode
apply_mutation-delta_example = apply_mutation-delta old_mode new_mode (omega arith) (omega arith)

unmarshal_text-marshal_text_example :
    (marshal_text 0x27 ≡ ok (mode_string 0x27)) × (unmarshal_text 0x3B (mode_string 0x27) ≡ ok 0x27)
unmarshal_text-marshal_text_example = unmarshal_text-marshal_text new_mode old_mode (omega arith)

mutated : apply_mutation 0x3B (codes "+W-PA") ≡ ok 0x27
unfolding apply_mutation eq_bytes parse_acs ◌&^◌
mutated = refl

mutation_in_range : 0x27 < 256
mutation_in_range = apply_mutation-lt 0x3B (codes "+W-PA") (omega arith) mutated

-- The signs and their letters, one after another; the last sign has none.
apply_delta-applied_example : apply_delta 0x3B (codes "+W-PA+") ≡ applied 0x3B (codes "+W-PA+")
apply_delta-applied_example = apply_delta-applied 0x3B (codes "+W-PA+")

applied_to_mode : applied 0x3B (codes "+W-PA+") ≡ ok 0x27
unfolding apply_all signed_chunks parse_acs apply_chunk ◌&^◌
applied_to_mode = refl

seven_granted : (better_equal 0x7 0x3 ≡ true) ↔ ((0x3 < 256) × Grants 0x7 0x3)
seven_granted = better_equal_iff 0x7 0x3

nothing_extra : (better_than 0x3 0x7 ≡ false) ↔ Grants 0x7 (bit_and Mode.bitmask 0x3)
nothing_extra = better_than_iff 0x3 0x7

equal : better_equal 0x7 0x7 ≡ true
unfolding better_equal
equal = refl

no_more : better_than 0x7 0x7 ≡ false
unfolding better_than ◌&^◌
no_more = refl

seven_exact : bit_and Mode.bitmask 0x7 ≡ 0x7
seven_exact = better_equal_exact 0x7 0x7 equal no_more

seven_read_and_written :
    (is_joiner (bit_and 0x2F 0x7) ≡ (is_joiner 0x2F && is_joiner 0x7))
    × (is_reader (bit_and 0x2F 0x7) ≡ (is_reader 0x2F && is_reader 0x7))
    × (is_writer (bit_and 0x2F 0x7) ≡ (is_writer 0x2F && is_writer 0x7))
    × (is_owner (bit_and 0x2F 0x7) ≡ (is_owner 0x2F && is_owner 0x7))
seven_read_and_written = is_writer-bit_and 0x2F 0x7

admin_resolved :
    resolve_topic_role (codes " Admin ") true
    ≡ ok (record { name = codes "admin"; mode = 0x7F; channel_sub = false })
unfolding resolve_topic_role eq_bytes ◌&^◌
admin_resolved = refl

resolve_topic_role-IsSafe_example :
    IsSafe true (record { name = codes "admin"; mode = 0x7F; channel_sub = false })
resolve_topic_role-IsSafe_example = resolve_topic_role-IsSafe (codes " Admin ") true admin_resolved
