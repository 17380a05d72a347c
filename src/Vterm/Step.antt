-- ===== src/Vterm/Step.antt =====
-- `vterm_handle_escape` of src/components/breezy_term/vterm.c, and the byte that it leaves to
-- `vterm_putchar_internal`, keep the invariant, and do not touch what belongs to another component.
use breezybox.Prelude.{
  ℕ, zero, suc, ◌+◌, ◌-◌, ◌*◌, ◌<◌, ◌≡◌, Bool, true, false, if_both, ◌==◌, Bytes, length,
  length-append, arith, peek, is_letter, Option, none, some, [], ◌∷◌,
}
use breezybox.Vterm.Screen.{
  Geometry, Term, EscapeState, idle, after_esc, in_csi, blank, default_attr,
}
use breezybox.Vterm.Sgr.{
  Sgr, read_num, skip_extended, apply_code, sgr_round, sgr_loop, sgr_start, apply_sgr,
}
use breezybox.Vterm.Escape.{
  end_escape, end_sgr, finish_csi, collect, csi_params, csi_byte, index_down, reverse_index,
  esc_byte, escape_in, handle_escape,
}
use breezybox.Vterm.Write.{or_put, slow_byte}
use breezybox.Vterm.Layout.{IsGeometry, fill_lem, move_lem, with_cells, last_row}
use breezybox.Vterm.Valid.{IsValid, scroll-IsValid, putchar-IsValid}
use breezybox.Vterm.Commands.{run_csi-IsValid, private_mode-IsValid}

-- Whatever is returned satisfies P.
abbrev pub AllSome {ℓ κ} : {A : Type ℓ} → (A → Type κ) → Option A → Type κ
AllSome P none = Unit
AllSome P (some a) = P a

skip_extended-attr : (s : Sgr) → (skip_extended s).attr ≡ s.attr
unfolding skip_extended
skip_extended-attr s = ground arith

apply_code-attr : (n : ℕ) (s : Sgr) → s.attr < 256 → (apply_code n s).attr < 256
unfolding apply_code
apply_code-attr n s h = ground (arith, skip_extended-attr s)

sgr_round-attr : (s : Sgr) → s.attr < 256 → (sgr_round s).attr < 256
unfolding sgr_round read_num
sgr_round-attr s h = apply_code-attr (read_num s).0 (read_num s).1 h

sgr_loop-attr :
    (f : ℕ) (s : Sgr) → s.attr < 256 → AllSome (λ (r : Sgr). r.attr < 256) (sgr_loop f s)
unfolding sgr_loop
sgr_loop-attr zero s h = tt
sgr_loop-attr (suc f) s h = ground (arith, sgr_loop-attr f (sgr_round s) (sgr_round-attr s h))

sgr_start-attr : (a : ℕ) (params : Bytes) → a < 256 → (sgr_start a params).attr < 256
unfolding sgr_start
sgr_start-attr a [] h = omega arith
sgr_start-attr a (c ∷ s) h = ground arith

module _ (g : Geometry) (w : IsGeometry g) where
  pub apply_sgr-IsValid :
      (params : Bytes) (t : Term) → IsValid g t → AllSome (IsValid g) (end_sgr (apply_sgr params t))
  unfolding apply_sgr
  apply_sgr-IsValid params t v = ground (
    arith,
    sgr_loop-attr (length params + 1) (sgr_start t.current_attr params)
        (sgr_start-attr t.current_attr params v.attr_in),
  )

  end_escape-IsValid : (t : Term) → IsValid g t → IsValid g (end_escape t)
  end_escape-IsValid t v = ground arith

  finish_csi-IsValid :
      (c : ℕ) (params : Bytes) (t : Term)
      → IsValid g t
      → AllSome (IsValid g) (finish_csi g c params t)
  unfolding finish_csi
  finish_csi-IsValid c params t v =
      if_both (AllSome (IsValid g)) (peek params == b'?') _ _
        (end_escape-IsValid _ (private_mode-IsValid g w c params t v))
        (if_both (AllSome (IsValid g)) (c == b'm') _ _ (apply_sgr-IsValid params t v)
          (end_escape-IsValid _ (run_csi-IsValid g w c params t v)))

  collect-IsValid : (c : ℕ) (t : Term) → IsValid g t → IsValid g (collect c t)
  collect-IsValid c t v = ground (arith, length-append t.escape_buf (c ∷ []))

  csi_byte-IsValid : (c : ℕ) (t : Term) → IsValid g t → AllSome (IsValid g) (csi_byte g c t)
  unfolding csi_byte
  csi_byte-IsValid c t v =
      let k = collect-IsValid c t v in
      if_both (AllSome (IsValid g)) (is_letter c) _ _
        (finish_csi-IsValid c (csi_params (collect c t).escape_buf) _ k) k

  index_down-IsValid : (t : Term) → IsValid g t → IsValid g (index_down g t)
  unfolding index_down
  index_down-IsValid t v = ground (arith, w.rows_pos, scroll-IsValid g w t)

  reverse_index-IsValid : (t : Term) → IsValid g t → IsValid g (reverse_index g t)
  unfolding reverse_index
  reverse_index-IsValid t v =
      let n = (g.rows - 1) * g.cols in
      rw
        (move_lem g g.cols 0 n t (omega (arith, last_row g w.rows_pos))
          (omega (arith, last_row g w.rows_pos)))
        (rw
          (fill_lem g g.cols 0 (blank default_attr) (with_cells t _)
            (omega (arith, last_row g w.rows_pos)))
          (ground arith))

  esc_byte-IsValid : (c : ℕ) (t : Term) → IsValid g t → IsValid g (esc_byte g c t).1
  unfolding esc_byte
  esc_byte-IsValid c t v = ground (
    arith,
    w.cols_pos,
    index_down-IsValid t v,
    reverse_index-IsValid t v,
    index_down-IsValid (record t { cursor_x = 0 }),
  )

  escape_in-IsValid :
      (e : EscapeState) (c : ℕ) (t : Term)
      → IsValid g t
      → AllSome (λ (r : Bool × Term). IsValid g r.1) (escape_in e g c t)
  unfolding escape_in
  escape_in-IsValid idle c t v = ground arith
  escape_in-IsValid after_esc c t v = esc_byte-IsValid c t v
  escape_in-IsValid in_csi c t v = ground (arith, csi_byte-IsValid c t v)

  or_put-IsValid :
      (c : ℕ) (o : Option (Bool × Term))
      → AllSome (λ (r : Bool × Term). IsValid g r.1) o
      → AllSome (IsValid g) (or_put g c o)
  or_put-IsValid c none h = tt
  or_put-IsValid c (some (true, t)) h = h
  or_put-IsValid c (some (false, t)) h = putchar-IsValid g w c t h

  pub slow_byte-IsValid : (c : ℕ) (t : Term) → IsValid g t → AllSome (IsValid g) (slow_byte g c t)
  unfolding slow_byte handle_escape
  slow_byte-IsValid c t v = or_put-IsValid c _ (escape_in-IsValid t.escape_state c t v)
