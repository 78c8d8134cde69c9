-- ===== src/Base64/Calls.antt =====
-- The callers of src/base64.c's encoder: a line at a time to a callback.
use uld_fdpic.Common.{
  ℕ, zero, suc, ◌-◌, ◌||◌, some, List, [], ◌∷◌, ◌==◌, if◌then◌else◌, length, ℤ, pos, is_neg,
  is_zero,
}
use uld_fdpic.Mem.{Mem, cstr}
use uld_fdpic.Sal.Crc.{bytes_at}
use uld_fdpic.Base64.{State, Encoded, base64_encode, base64_final}

-- The output through a callback: the result, the memory, the state, and what each call of the
-- callback was given.
pub record Output : Type 0 where
  pub ret : ℤ
  pub memory : Mem
  pub state : State
  pub lines : List (List ℕ)

-- `send` is what a callback is given of the buffer, `cb` its result.
module _ (cb : List ℕ → ℤ) (send : Mem → ℕ → State → List ℕ) where
  -- One call that leaves bytes over, and the callback, in front of the rest of the loop.
  abbrev pub after_call : (Encoded → Output) → ℕ → Encoded → Output
  after_call next dest r =
      let line = send r.memory dest r.state in
      let after = next r in
      if is_neg r.ret || is_zero r.ret
      then record { ret = r.ret; memory = r.memory; state = r.state; lines = [] }
      else if is_neg (cb line)
      then record { ret = cb line; memory = r.memory; state = r.state; lines = line ∷ [] }
      else record after { lines = line ∷ after.lines }

  -- Each call uses up one byte at least, or is the last, so that `left` starts as the number of
  -- bytes.
  unfoldable pub encode_lines : ℕ → Mem → ℕ → List ℕ → State → Output
  encode_lines zero m dest src s = record { ret = pos 0; memory = m; state = s; lines = [] }
  encode_lines (suc left) m dest src s =
      after_call (λ r. encode_lines left r.memory dest r.rest r.state) dest
        (base64_encode m dest (some src) s)

  unfoldable pub final_line : Mem → ℕ → State → Output
  final_line m dest s =
      let r = base64_final m dest s in
      let line = send r.memory dest r.state in
      let done : Output = record { ret = r.ret; memory = r.memory; state = r.state; lines = [] } in
      if is_zero r.ret
      then record done { ret = (if is_neg (cb line) then cb line else pos 0); lines = line ∷ [] }
      else record done { ret = (if is_neg r.ret then r.ret else pos 0) }

-- `puts` gets the text; `write` gets a whole line, or the last one, without the NUL.
abbrev pub send_text : Mem → ℕ → State → List ℕ
send_text m dest s = cstr m dest

abbrev pub send_line : Mem → ℕ → State → List ℕ
send_line m dest s = bytes_at m dest (s.dest_len - 1)

abbrev pub send_last : Mem → ℕ → State → List ℕ
send_last m dest s = bytes_at m dest ((if s.dest_pos == 0 then s.dest_len else s.dest_pos) - 1)

unfoldable pub base64_encode_cb_puts : (List ℕ → ℤ) → Mem → ℕ → List ℕ → State → Output
base64_encode_cb_puts cb m dest src s = encode_lines cb send_text (length src) m dest src s

unfoldable pub base64_final_cb_puts : (List ℕ → ℤ) → Mem → ℕ → State → Output
base64_final_cb_puts cb m dest s = final_line cb send_text m dest s

unfoldable pub base64_encode_cb_write : (List ℕ → ℤ) → Mem → ℕ → List ℕ → State → Output
base64_encode_cb_write cb m dest src s = encode_lines cb send_line (length src) m dest src s

unfoldable pub base64_final_cb_write : (List ℕ → ℤ) → Mem → ℕ → State → Output
base64_final_cb_write cb m dest s = final_line cb send_last m dest s
