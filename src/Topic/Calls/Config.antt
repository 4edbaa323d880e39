-- ===== src/Topic/Calls/Config.antt =====
-- internal/server/calls_config.go, and `newAgoraProvider` of calls_agora.go: the settings of the media
-- provider.
use server_chat.Common.{
  ℕ, ◌≤◌, ◌≡◌, Bool, true, false, ◌&&◌, ◌||◌, Option, none, some, [], ◌∷◌, ◌==◌, ltb, leb, length,
  if◌then◌else◌, arith, inl, inr, Bool-cases, refl,
}
use server_chat.Common.Bytes.{Bytes, codes, trim_space}
use server_chat.Common.Result.{Result, ok, err, ok-injective}
use server_chat.Common.Int.{ℤ, pos, negsuc}

-- callConfig and agoraConfig; the numbers of a file may be negative.
pub record CallConfig : Type 0 where
  pub enabled : Bool
  pub call_establishment_timeout : ℤ
  pub app_id : Bytes
  pub app_certificate : Bytes
  pub token_ttl : ℤ
  pub channel_prefix : Bytes
  pub max_participants : ℤ

-- agoraProvider; the time is in seconds.
pub record Provider : Type 0 where
  pub app_id : Bytes
  pub app_certificate : Bytes
  pub token_ttl : ℕ
  pub channel_prefix : Bytes
  pub max_participants : ℕ

pub data ConfigErr : Type 0 where
  bad_app_id bad_app_certificate bad_token_ttl bad_channel_prefix bad_max_participants : ConfigErr

abbrev is_between : ℕ → ℕ → ℕ → Bool
is_between low high c = leb low c && leb c high

abbrev pub is_hex : ℕ → Bool
is_hex c = is_between b'0' b'9' c || is_between b'a' b'f' c || is_between b'A' b'F' c

abbrev pub is_safe : ℕ → Bool
is_safe c =
    is_between b'a' b'z' c
    || is_between b'A' b'Z' c
    || is_between b'0' b'9' c
    || c == b'-'
    || c == b'_'

unfoldable pub all_bytes : (ℕ → Bool) → Bytes → Bool
all_bytes test [] = true
all_bytes test (c ∷ value) = let rest = all_bytes test value in if test c then rest else false

-- isAgoraHexIdentifier
unfoldable pub is_agora_hex_identifier : Bytes → Bool
unfolding all_bytes
is_agora_hex_identifier value = length value == 32 && all_bytes is_hex value

-- isSafeAgoraChannelPrefix
unfoldable pub is_safe_agora_channel_prefix : Bytes → Bool
unfolding all_bytes
is_safe_agora_channel_prefix value = all_bytes is_safe value && ltb 0 (length value)

-- A number that zero leaves to its default, within bounds.
abbrev pub setting : ℕ → ℕ → ℕ → ℤ → Option ℕ
setting default low high (negsuc n) = none
setting default low high (pos n) =
    if n == 0 then some default else if is_between low high n then some n else none

abbrev pub prefix_or_default : Bytes → Bytes
prefix_or_default [] = codes "im"
prefix_or_default (c ∷ prefix) = c ∷ prefix

abbrev pub is_fitting_prefix : Bytes → Bool
is_fitting_prefix prefix = leb (length prefix) 24 && is_safe_agora_channel_prefix prefix

abbrev with_limit : Bytes → Bytes → ℕ → Bytes → Option ℕ → Result ConfigErr Provider
with_limit app_id app_certificate ttl prefix none = err bad_max_participants
with_limit app_id app_certificate ttl prefix (some limit) = ok (record {
  app_id = app_id;
  app_certificate = app_certificate;
  token_ttl = ttl;
  channel_prefix = prefix;
  max_participants = limit;
})

abbrev with_ttl : Bytes → Bytes → CallConfig → Option ℕ → Result ConfigErr Provider
with_ttl app_id app_certificate config none = err bad_token_ttl
with_ttl app_id app_certificate config (some ttl) =
    if is_fitting_prefix (prefix_or_default config.channel_prefix)
    then with_limit app_id app_certificate ttl (prefix_or_default config.channel_prefix)
        (setting 128 2 10000 config.max_participants)
    else err bad_channel_prefix

-- newAgoraProvider
unfoldable pub new_agora_provider : CallConfig → Result ConfigErr Provider
unfolding is_agora_hex_identifier is_safe_agora_channel_prefix trim_space
new_agora_provider config =
    let app_id = trim_space config.app_id in
    let app_certificate = trim_space config.app_certificate in
    if is_agora_hex_identifier app_id
    then (if is_agora_hex_identifier app_certificate
        then with_ttl app_id app_certificate config (setting 3600 60 86400 config.token_ttl)
        else err bad_app_certificate)
    else err bad_app_id

abbrev default_call_establishment_timeout : ℕ
default_call_establishment_timeout = 30

abbrev establishment_timeout : ℤ → ℕ
establishment_timeout (negsuc n) = default_call_establishment_timeout
establishment_timeout (pos n) = if n == 0 then default_call_establishment_timeout else n

-- initVideoCalls: the provider and the timeout of the globals, if calls are enabled.
abbrev pub initialised : ℤ → Result ConfigErr Provider → Result ConfigErr (Option (Provider × ℕ))
initialised timeout (err e) = err e
initialised timeout (ok provider) = ok (some (provider, establishment_timeout timeout))

unfoldable pub init_video_calls : CallConfig → Result ConfigErr (Option (Provider × ℕ))
unfolding new_agora_provider
init_video_calls config =
    if config.enabled
    then initialised config.call_establishment_timeout (new_agora_provider config)
    else ok none

-- What the server can count on.
pub record IsValid (p : Provider) : Type 0 where
  pub hex_id : is_agora_hex_identifier p.app_id ≡ true
  pub hex_certificate : is_agora_hex_identifier p.app_certificate ≡ true
  pub ttl : (60 ≤ p.token_ttl) × (p.token_ttl ≤ 86400)
  pub fitting : is_fitting_prefix p.channel_prefix ≡ true
  pub limit : (2 ≤ p.max_participants) × (p.max_participants ≤ 10000)

setting_bounds :
    (default low high : ℕ) (z : ℤ) (n : ℕ)
    → low ≤ default
    → default ≤ high
    → setting default low high z ≡ some n
    → (low ≤ n) × (n ≤ high)
setting_bounds default low high z n p q h = ground arith

module _ (app_id app_certificate : Bytes) (config : CallConfig)
    (hex_id : is_agora_hex_identifier app_id ≡ true)
    (hex_certificate : is_agora_hex_identifier app_certificate ≡ true) where
  with_limit-IsValid :
      (ttl : ℕ) (prefix : Bytes) (limit : Option ℕ) (p : Provider)
      → (60 ≤ ttl) × (ttl ≤ 86400)
      → is_fitting_prefix prefix ≡ true
      → setting 128 2 10000 config.max_participants ≡ limit
      → with_limit app_id app_certificate ttl prefix limit ≡ ok p
      → IsValid p
  with_limit-IsValid ttl prefix none p t f e h = cc
  with_limit-IsValid ttl prefix (some limit) p t f e h = rw (← ok-injective h) (record {
    hex_id = hex_id;
    hex_certificate = hex_certificate;
    ttl = t;
    fitting = f;
    limit = setting_bounds 128 2 10000 config.max_participants limit (omega arith) (omega arith) e;
  })

  with_ttl-IsValid :
      (ttl : Option ℕ) (p : Provider)
      → setting 3600 60 86400 config.token_ttl ≡ ttl
      → with_ttl app_id app_certificate config ttl ≡ ok p
      → IsValid p
  with_ttl-IsValid none p e h = cc
  with_ttl-IsValid (some ttl) p e h =
      elim (Bool-cases (is_fitting_prefix (prefix_or_default config.channel_prefix))) [
        | inr f ↦ (let k = rw f at h in cc)
        | inl f ↦
            with_limit-IsValid ttl (prefix_or_default config.channel_prefix)
              (setting 128 2 10000 config.max_participants) p
              (setting_bounds 3600 60 86400 config.token_ttl ttl (omega arith) (omega arith) e) f
              refl (rw f at h)
      ]

pub new_agora_provider-IsValid :
    (config : CallConfig) (p : Provider) → new_agora_provider config ≡ ok p → IsValid p
unfolding new_agora_provider
new_agora_provider-IsValid config p h =
    elim (Bool-cases (is_agora_hex_identifier (trim_space config.app_id))) [
      | inr a ↦ (let k = rw a at h in cc)
      | inl a ↦
          (let k = rw a at h in
            elim (Bool-cases (is_agora_hex_identifier (trim_space config.app_certificate))) [
              | inr b ↦ (let m = rw b at k in cc)
              | inl b ↦
                  with_ttl-IsValid (trim_space config.app_id) (trim_space config.app_certificate)
                    config a b (setting 3600 60 86400 config.token_ttl) p refl (rw b at k)
            ])
    ]
