-- ===== src/Access/Mode.antt =====
-- The constants of server/store/types/access_mode.go. `Mode.read` is Go's `ModeRead`, and
-- `Mode.c_full` its `ModeCFull`.
use server_chat.Common.{ℕ}

abbrev pub join : ℕ
join = 1

abbrev pub read : ℕ
read = 2

abbrev pub write : ℕ
write = 4

abbrev pub pres : ℕ
pres = 8

abbrev pub approve : ℕ
approve = 16

abbrev pub share : ℕ
share = 32

abbrev pub delete : ℕ
delete = 64

abbrev pub owner : ℕ
owner = 128

abbrev pub unset : ℕ
unset = 256

abbrev pub no_access : ℕ
no_access = 0

abbrev pub invalid : ℕ
invalid = 0x100000

abbrev pub bitmask : ℕ
bitmask = 0xFF

-- JRWPASDO
abbrev pub c_full : ℕ
c_full = 0xFF

-- JRP
abbrev pub c_chn_reader : ℕ
c_chn_reader = 0xB

-- JRWPD
abbrev pub c_sys : ℕ
c_sys = 0x4F
