-- ===== src/Base64/Message.antt =====
-- The output of a message as a whole.
use mathlib.Core.List.{append_assoc}
use uld_fdpic.Common.{
  ℕ, ◌-◌, ◌<◌, ◌≡◌, ◌≢◌, refl, sym, ap, ◌∙◌, arith, inl, inr, false, some, List, [], ◌∷◌, ◌++◌,
  ◌==◌, if◌then◌else◌, All, length, ℤ, pos, is_neg,
}
use uld_fdpic.Mem.{Mem}
use uld_fdpic.Mem.Laws.{cstr-IsCstr}
use uld_fdpic.Sal.Crc.{bytes_at}
use uld_fdpic.Base64.{State, init_state, base64_final}
use uld_fdpic.Base64.Calls.{
  encode_lines, final_line, send_text, send_line, send_last, base64_encode_cb_puts,
  base64_final_cb_puts, base64_encode_cb_write, base64_final_cb_write,
}
use uld_fdpic.Base64.Text.{text_from, base64_text, decode, decode-base64_text}
use uld_fdpic.Base64.Holds.{Holds-IsCstr, Holds-bytes_at}
use uld_fdpic.Base64.Open.{IsClosed, IsFresh, fresh-Starts, fresh-IsOpen}
use uld_fdpic.Base64.Lines.{concat, encode_lines-Sent}
use uld_fdpic.Base64.Final.{IsEnded, Ended, final-open, final-closed, final_line-Ended}

-- What the callbacks are given.
closed-text :
    (m : Mem) (dest : ℕ) (s : State) (cs : List ℕ) → IsClosed m dest s cs → send_text m dest s ≡ cs
closed-text m dest s cs h =
    cstr-IsCstr m dest cs (Holds-IsCstr m dest cs [] h.plain h.holds)
      (omega (arith, h.size, h.line.most))

ended-text :
    (m : Mem) (dest : ℕ) (s : State) (cs : List ℕ) → IsEnded m dest s cs → send_text m dest s ≡ cs
ended-text m dest s cs h = cstr-IsCstr m dest cs (Holds-IsCstr m dest cs [] h.plain h.holds) h.short

closed-line :
    (m : Mem) (dest : ℕ) (s : State) (cs : List ℕ) → IsClosed m dest s cs → send_line m dest s ≡ cs
closed-line m dest s cs h =
    let len : s.dest_len - 1 ≡ length cs = omega (arith, h.size) in
    ap (λ n. bytes_at m dest n) len ∙ Holds-bytes_at m dest cs (0 ∷ []) h.holds

ended-line :
    (m : Mem) (dest : ℕ) (s : State) (cs : List ℕ) → IsEnded m dest s cs → send_last m dest s ≡ cs
ended-line m dest s cs h =
    let len : (if s.dest_pos == 0 then s.dest_len else s.dest_pos) - 1 ≡ length cs =
      omega (arith, h.size) in
    ap (λ n. bytes_at m dest n) len ∙ Holds-bytes_at m dest cs (0 ∷ []) h.holds

concat-append : (xs ys : List (List ℕ)) → concat (xs ++ ys) ≡ concat xs ++ concat ys
unfolding concat
concat-append [] ys = refl
concat-append (x ∷ xs) ys =
    ap (λ t. x ++ t) (concat-append xs ys) ∙ sym (append_assoc x (concat xs) (concat ys))

concat-one : (xs : List ℕ) → concat (xs ∷ []) ≡ xs
unfolding concat
concat-one [] = refl
concat-one (x ∷ xs) = ap (λ t. x ∷ t) (concat-one xs)

module _ (cb : List ℕ → ℤ) (send last : Mem → ℕ → State → List ℕ)
    (never : (line : List ℕ) → is_neg (cb line) ≡ false)
    (sends : (m : Mem) (dest : ℕ) (s : State) (cs : List ℕ)
      → IsClosed m dest s cs
      → send m dest s ≡ cs)
    (sends_last : (m : Mem) (dest : ℕ) (s : State) (cs : List ℕ)
      → IsEnded m dest s cs
      → last m dest s ≡ cs) where
  output_text :
      (m : Mem) (dest : ℕ) (s : State) (b : ℕ) (bs : List ℕ)
      → dest ≢ 0
      → IsFresh s
      → All (λ x. x < 256) (b ∷ bs)
      → let e = encode_lines cb send (length (b ∷ bs)) m dest (b ∷ bs) s in
        let f = final_line cb last e.memory dest e.state in
        (e.ret ≡ pos 0) × (f.ret ≡ pos 0) × (concat (e.lines ++ f.lines) ≡ base64_text (b ∷ bs))
  output_text m dest s b bs not_null fresh bytes =
      let e = encode_lines cb send (length (b ∷ bs)) m dest (b ∷ bs) s in
      let sent =
        encode_lines-Sent cb send never sends dest not_null (length (b ∷ bs)) m s (init_state s) []
          b bs (omega arith) (fresh-Starts m dest s not_null fresh) (fresh-IsOpen m dest s fresh)
          bytes in
      let tail = text_from e.state.brem e.state.brem_len [] in
      let ended : Ended dest (sent.buffer ++ tail) (base64_final e.memory dest e.state) =
        elim sent.ends [
          | inl closed ↦ final-closed e.memory dest e.state sent.buffer not_null closed
          | inr opened ↦ final-open e.memory dest e.state sent.buffer not_null sent.some_text opened
        ] in
      let (done, line) =
        final_line-Ended cb last never sends_last e.memory dest e.state (sent.buffer ++ tail)
          ended in
      (
        sent.ret,
        done,
        concat-append e.lines _
            ∙ ap (λ t. concat e.lines ++ t) (ap concat line ∙ concat-one (sent.buffer ++ tail))
            ∙ sent.text
            ∙ fresh_text s (b ∷ bs) fresh,
      )
    where
      fresh_text :
          (s : State) (bs : List ℕ)
          → IsFresh s
          → text_from (init_state s).brem (init_state s).brem_len bs ≡ base64_text bs
      fresh_text s bs fresh = rw fresh.init refl

-- A message that is not empty, through the two functions with a `puts` callback that never fails,
-- from a state with a length of 5 to 255: both return 0, and the lines in a row are the Base64
-- text of the message, however it falls into lines.
pub cb_puts-base64_text :
    (cb : List ℕ → ℤ) (m : Mem) (dest : ℕ) (s : State) (b : ℕ) (bs : List ℕ)
    → ((line : List ℕ) → is_neg (cb line) ≡ false)
    → dest ≢ 0
    → IsFresh s
    → All (λ x. x < 256) (b ∷ bs)
    → let e = base64_encode_cb_puts cb m dest (b ∷ bs) s in
      let f = base64_final_cb_puts cb e.memory dest e.state in
      (e.ret ≡ pos 0) × (f.ret ≡ pos 0) × (concat (e.lines ++ f.lines) ≡ base64_text (b ∷ bs))
unfolding base64_encode_cb_puts base64_final_cb_puts
cb_puts-base64_text cb m dest s b bs never =
    output_text cb send_text send_text never closed-text ended-text m dest s b bs

cb_write-base64_text :
    (cb : List ℕ → ℤ) (m : Mem) (dest : ℕ) (s : State) (b : ℕ) (bs : List ℕ)
    → ((line : List ℕ) → is_neg (cb line) ≡ false)
    → dest ≢ 0
    → IsFresh s
    → All (λ x. x < 256) (b ∷ bs)
    → let e = base64_encode_cb_write cb m dest (b ∷ bs) s in
      let f = base64_final_cb_write cb e.memory dest e.state in
      (e.ret ≡ pos 0) × (f.ret ≡ pos 0) × (concat (e.lines ++ f.lines) ≡ base64_text (b ∷ bs))
unfolding base64_encode_cb_write base64_final_cb_write
cb_write-base64_text cb m dest s b bs never =
    output_text cb send_line send_last never closed-line ended-line m dest s b bs

-- A message that is not empty, through the two functions with a `write` callback that never fails:
-- what the callback is given in a row, by the counts that it is given, decodes to the message. The
-- state starts with a length of 5 to 255.
pub cb_write_roundtrip :
    (cb : List ℕ → ℤ) (m : Mem) (dest : ℕ) (s : State) (b : ℕ) (bs : List ℕ)
    → ((line : List ℕ) → is_neg (cb line) ≡ false)
    → dest ≢ 0
    → IsFresh s
    → All (λ x. x < 256) (b ∷ bs)
    → let e = base64_encode_cb_write cb m dest (b ∷ bs) s in
      let f = base64_final_cb_write cb e.memory dest e.state in
      decode (concat (e.lines ++ f.lines)) ≡ some (b ∷ bs)
cb_write_roundtrip cb m dest s b bs never not_null fresh bytes =
    ap decode (cb_write-base64_text cb m dest s b bs never not_null fresh bytes).2
    ∙ decode-base64_text (b ∷ bs) bytes
