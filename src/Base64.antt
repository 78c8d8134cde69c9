-- ===== src/Base64.antt =====
-- src/base64.c: Base64 text in lines of a buffer, with a state that is carried from call to call. A
-- source is the list of its bytes, so that `n` is its length and not negative, and `none` is NULL
-- with a positive `n`. The state is not NULL.
pub mod Text
pub mod Digits
pub mod Bytes
pub mod Line
pub mod Holds
pub mod Open
pub mod Buffer
pub mod Calls
pub mod Lines
pub mod Final
pub mod Message
use uld_fdpic.Common.{
  ℕ, zero, suc, ◌+◌, ◌-◌, ◌*◌, ◌/◌, ◌%◌, Bool, true, false, not, ◌&&◌, ◌||◌, Option, none, some,
  List, [], ◌∷◌, ◌++◌, ◌==◌, ltb, if◌then◌else◌, get_or, length, ℤ, pos, negsuc, is_neg, is_zero,
  bit_or,
}
use uld_fdpic.Mem.{Mem, null, sub32, update, writes, cstr}
use uld_fdpic.Sal.Crc.{bytes_at}

-- The 64 characters.
abbrev pub base64_table : List ℕ
base64_table =
    65 ∷ 66 ∷ 67 ∷ 68 ∷ 69 ∷ 70 ∷ 71 ∷ 72 ∷ 73 ∷ 74 ∷ 75 ∷ 76 ∷ 77 ∷ 78 ∷ 79 ∷ 80 ∷ 81 ∷ 82 ∷ 83
    ∷ 84 ∷ 85 ∷ 86 ∷ 87 ∷ 88 ∷ 89 ∷ 90 ∷ 97 ∷ 98 ∷ 99 ∷ 100 ∷ 101 ∷ 102 ∷ 103 ∷ 104 ∷ 105 ∷ 106
    ∷ 107 ∷ 108 ∷ 109 ∷ 110 ∷ 111 ∷ 112 ∷ 113 ∷ 114 ∷ 115 ∷ 116 ∷ 117 ∷ 118 ∷ 119 ∷ 120 ∷ 121 ∷ 122
    ∷ 48 ∷ 49 ∷ 50 ∷ 51 ∷ 52 ∷ 53 ∷ 54 ∷ 55 ∷ 56 ∷ 57 ∷ 43 ∷ 47 ∷ []

unfoldable pub base64_char : ℕ → ℕ
base64_char i = get_or base64_table i 0

abbrev pub equals_sign : ℕ
equals_sign = 61

-- struct base64_state, without its bit widths.
pub record State : Type 0 where
  pub dest_len : ℕ
  pub dest_pos : ℕ
  pub brem : ℕ
  pub brem_len : ℕ
  pub init : Bool
  pub final : Bool

-- The variables of the loop, with the memory.
pub record Loop : Type 0 where
  pub memory : Mem
  pub destp : ℕ
  pub dest_rem : ℕ
  pub brem : ℕ
  pub brem_len : ℕ

-- The switch and the two decrements, for one byte; `none` is the default case.
unfoldable pub encode_byte : ℕ → Loop → ℕ → Option Loop
encode_byte zero v b = some (record {
  memory = update v.memory v.destp (base64_char (b / 4));
  destp = v.destp + 1;
  dest_rem = sub32 v.dest_rem 1;
  brem = b % 4;
  brem_len = 1;
})
encode_byte (suc zero) v b = some (record {
  memory = update v.memory v.destp (base64_char (bit_or (v.brem * 16) (b / 16)));
  destp = v.destp + 1;
  dest_rem = sub32 v.dest_rem 1;
  brem = b % 16;
  brem_len = 2;
})
encode_byte (suc (suc zero)) v b = some (record {
  memory =
      update (update v.memory v.destp (base64_char (bit_or (v.brem * 4) (b / 64)))) (v.destp + 1)
        (base64_char (b % 64));
  destp = v.destp + 2;
  dest_rem = sub32 (sub32 v.dest_rem 1) 1;
  brem = 0;
  brem_len = 0;
})
encode_byte (suc (suc (suc n))) v b = none

-- `if (dest_rem == 1)`: the line is full.
abbrev pub end_line : Loop → Loop
end_line v =
    if v.dest_rem == 1
    then record v { memory = update v.memory v.destp 0; dest_rem = sub32 v.dest_rem 1 }
    else v

-- The loop, with the bytes that it leaves.
unfoldable pub encode_loop : Loop → List ℕ → Option (Loop × List ℕ)
encode_loop v [] = some (v, [])
encode_loop v (b ∷ bs) = elim (encode_byte v.brem_len v b) as (λ x. Option (Loop × List ℕ)) [
  | none ↦ none
  | some w ↦
      let rest = encode_loop (end_line w) bs in
      if (end_line w).dest_rem == 0 then some (end_line w, bs) else rest
]

-- The result, the memory, the bytes from `*src` on, and the state.
pub record Encoded : Type 0 where
  pub ret : ℤ
  pub memory : Mem
  pub rest : List ℕ
  pub state : State

-- `if (!n)`: the padding and the NUL.
unfoldable pub encode_final : Mem → ℕ → ℕ → State → Encoded
encode_final m dest zero s = record {
  ret = pos 0;
  memory = update m (dest + s.dest_pos) 0;
  rest = [];
  state = record s { dest_pos = (s.dest_pos + 1) % 256; final = true };
}
encode_final m dest (suc zero) s = record {
  ret = pos 0;
  memory =
      writes m (dest + s.dest_pos) (base64_char (s.brem * 16) ∷ equals_sign ∷ equals_sign ∷ 0 ∷ []);
  rest = [];
  state = record s { dest_pos = (s.dest_pos + 4) % 256; final = true };
}
encode_final m dest (suc (suc zero)) s = record {
  ret = pos 0;
  memory = writes m (dest + s.dest_pos) (base64_char (s.brem * 4) ∷ equals_sign ∷ 0 ∷ []);
  rest = [];
  state = record s { dest_pos = (s.dest_pos + 3) % 256; final = true };
}
encode_final m dest (suc (suc (suc n))) s = record {
  ret = negsuc 0;
  memory = m;
  rest = [];
  state = record s { final = true };
}

-- `if (!state->init)`: whole groups of 4 characters, and the NUL.
abbrev pub init_state : State → State
init_state s = if s.init then s else record s {
  dest_len = (s.dest_len - 1) / 4 * 4 + 1;
  dest_pos = 0;
  brem = 0;
  brem_len = 0;
  init = true;
  final = false;
}

abbrev pub next_line : State → State
next_line s = if s.dest_pos == s.dest_len then record s { dest_pos = 0 } else s

-- The state behind the loop.
unfoldable pub store_loop : State → Option (Loop × List ℕ) → Mem → List ℕ → Encoded
store_loop s none m src = record { ret = negsuc 0; memory = m; rest = src; state = s }
store_loop s (some (v, rest)) m src = record {
  ret = pos (length rest);
  memory = v.memory;
  rest = rest;
  state = record s {
    dest_pos = (s.dest_len - v.dest_rem) % 256;
    brem = v.brem;
    brem_len = v.brem_len;
  };
}

-- Behind the initialisation.
unfoldable pub encode_started : Mem → ℕ → Option (List ℕ) → State → Encoded
encode_started m dest none s = record { ret = negsuc 0; memory = m; rest = []; state = s }
encode_started m dest (some []) s =
    if s.dest_pos == 0
    then record { ret = pos 0; memory = m; rest = []; state = record s { final = true } }
    else encode_final m dest s.brem_len s
encode_started m dest (some (b ∷ bs)) s =
    let start : Loop = record {
      memory = m;
      destp = dest + s.dest_pos;
      dest_rem = s.dest_len - s.dest_pos;
      brem = s.brem;
      brem_len = s.brem_len;
    } in
    store_loop s (encode_loop start (b ∷ bs)) m (b ∷ bs)

abbrev pub bytes_of : Option (List ℕ) → List ℕ
bytes_of none = []
bytes_of (some bs) = bs

unfoldable pub base64_encode : Mem → ℕ → Option (List ℕ) → State → Encoded
base64_encode m dest src s =
    if (dest == null) || s.final || not s.init && ltb s.dest_len 5
    then record { ret = negsuc 0; memory = m; rest = bytes_of src; state = s }
    else encode_started m dest src (next_line (init_state s))

unfoldable pub base64_final : Mem → ℕ → State → Encoded
base64_final m dest s = base64_encode m dest (some []) s
