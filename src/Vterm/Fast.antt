-- ===== src/Vterm/Fast.antt =====
-- The fast path of `vterm_write` in src/components/breezy_term/vterm.c: with its cached cursor,
-- attribute, state and pointers it does what the general code does, byte by byte.
use breezybox.Prelude.{
  ℕ, ◌+◌, ◌<◌, ◌≡◌, refl, ap, sym, ◌∙◌, Bool, true, false, ◌&&◌, leb, ◌==◌, if_both, Bytes, arith,
  Bool-cases, inl, inr, Option, none, some, [], ◌∷◌,
}
use breezybox.Vterm.Screen.{
  Geometry, size, store, Cell, Term, EscapeState, idle, after_esc, in_csi, row, scroll,
  putchar_internal, is_printable, print_cell, wrap, new_line, line_feed,
}
use breezybox.Vterm.Escape.{handle_escape, escape_in, esc}
use breezybox.Vterm.Write.{
  Writer, is_idle, flush, load, aim, fast_wrap, fast_byte, slow_byte, reload, reload_some,
  write_byte, write_loop, flush_some, write,
}
use breezybox.Vterm.Layout.{IsGeometry, poke_lem, here_in_size, with_cells, scroll_lem, row_suc}
use breezybox.Vterm.Valid.{IsValid}
use breezybox.Vterm.Step.{AllSome, slow_byte-IsValid}

-- The general code for each byte in turn.
unfoldable pub write_slowly : Geometry → Bytes → Term → Option Term
write_slowly g [] t = some t
write_slowly g (c ∷ cs) t = elim (slow_byte g c t) [ none ↦ none | some t' ↦ write_slowly g cs t' ]

-- The pointers are those of the cached cursor.
record IsAimed (g : Geometry) (w : Writer) : Type 0 where
  ptr_is : w.cursor_ptr ≡ row g w.cy + w.cx
  end_is : w.row_end ≡ row g w.cy + g.cols

printable-no_control :
    (c : ℕ)
    → is_printable c ≡ true
    → ((c == b'\n') ≡ false)
      × ((c == b'\r') ≡ false)
      × ((c == 8) ≡ false)
      × ((c == b'\t') ≡ false)
      × ((c == esc) ≡ false)
printable-no_control c h = ground arith

putchar-printable :
    (g : Geometry) (c : ℕ) (t : Term)
    → is_printable c ≡ true
    → putchar_internal g c t ≡ print_cell g c t
unfolding putchar_internal
putchar-printable g c t h =
    let (e₁, e₂, e₃, e₄, _) = printable-no_control c h in rw (e₁, e₂, e₃, e₄, h)

escape_idle :
    (g : Geometry) (c : ℕ) (t : Term)
    → t.escape_state ≡ idle
    → (c == esc) ≡ false
    → handle_escape g c t ≡ some (false, t)
unfolding handle_escape escape_in
escape_idle g c t e h = ground arith

-- What a plain character does to an idle terminal.
slow_byte-printable :
    (g : Geometry) (c : ℕ) (t : Term)
    → t.escape_state ≡ idle
    → is_printable c ≡ true
    → slow_byte g c t ≡ some (print_cell g c t)
unfolding slow_byte
slow_byte-printable g c t e h =
    let (_, _, _, _, k) = printable-no_control c h in
    rw (escape_idle g c t e k) (ap some (putchar-printable g c t h))

-- What is computed from the cached values, and the pointers, agree with the terminal `t`.
record Agrees (g : Geometry) (w : Writer) (t : Term) : Type 0 where
  flushed : flush w ≡ t
  aimed : IsAimed g w

leb-add_left : (a b c : ℕ) → leb (a + b) (a + c + 1) ≡ leb b (c + 1)
leb-add_left a b c = ground arith

new_line_any :
    (g : Geometry) (x : ℕ) (t : Term) → new_line g (record t { cursor_x = x }) ≡ new_line g t
unfolding new_line
new_line_any g x t = refl

aim-IsAimed : (g : Geometry) (x y : ℕ) (w : Writer) → IsAimed g (aim g x y w)
aim-IsAimed g x y w = omega arith

module _ (g : Geometry) (ok : IsGeometry g) where
  fast_wrap-IsAimed :
      (w : Writer)
      → w.cursor_ptr + 1 ≡ row g w.cy + g.cols
      → w.row_end ≡ row g w.cy + g.cols
      → IsAimed g (fast_wrap g w)
  unfolding fast_wrap
  fast_wrap-IsAimed w a b =
      let scrolled = scroll g (record (w.term) { cursor_x = 0; cursor_y = w.cy + 1 }) in
      if_both (IsAimed g) (leb g.rows (w.cy + 1)) _ _
        (aim-IsAimed g 0 scrolled.cursor_y (record w { term = scrolled }))
        (omega (arith, row_suc g w.cy))

  flush-fast_wrap : (w : Writer) → flush (fast_wrap g w) ≡ new_line g (flush w)
  unfolding fast_wrap new_line line_feed
  flush-fast_wrap w = ground (
    arith,
    scroll_lem g (record (w.term) { cursor_x = 0; cursor_y = w.cy + 1 }) ok.rows_pos,
    scroll_lem g (record (flush w) { cursor_x = 0; cursor_y = w.cy + 1 }) ok.rows_pos,
  )

  -- The fast path prints the character as the general code does.
  fast_byte-Agrees :
      (c : ℕ) (w : Writer)
      → IsAimed g w
      → IsValid g (flush w)
      → Agrees g (fast_byte g c w) (print_cell g c (flush w))
  unfolding fast_byte print_cell wrap
  fast_byte-Agrees c w a v =
      let cell : Cell = record { ch = c; attr = w.attr } in
      let inside : row g w.cy + w.cx < size g = here_in_size g w.cy w.cx v.y_in v.x_in in
      let next : Writer = record w {
        term = with_cells w.term (store w.term.cells (row g w.cy + w.cx) cell);
        cursor_ptr = row g w.cy + w.cx;
        row_end = row g w.cy + g.cols;
      } in
      rw (a.ptr_is, a.end_is)
        (rw (poke_lem g (row g w.cy + w.cx) cell w.term inside) (
          rw (poke_lem g (row g w.cy + w.cx) cell (flush w) inside) (
            rw (leb-add_left (row g w.cy) g.cols w.cx) (elim (Bool-cases (leb g.cols (w.cx + 1))) [
              | inl full ↦ rw full (record {
                flushed = flush-fast_wrap next ∙ sym (new_line_any g (w.cx + 1) (flush next));
                aimed = fast_wrap-IsAimed next (ground arith) refl;
              })
              | inr room ↦ rw room (record { flushed = refl; aimed = omega arith })
            ]))))

  reload-Agrees : (w : Writer) (t : Term) → IsAimed g w → Agrees g (reload g w t) t
  reload-Agrees w t a = ground arith

-- Both runs return and agree, or neither returns.
abbrev Both : Geometry → Option Writer → Option Term → Type 0
Both g none none = Unit
Both g none (some t) = ⊥
Both g (some w) none = ⊥
Both g (some w) (some t) = Agrees g w t

idle_of_test : (m : EscapeState) (b : Bool) → (is_idle m && b) ≡ true → (m ≡ idle) × (b ≡ true)
idle_of_test idle b h = (refl, h)
idle_of_test after_esc b h = cc
idle_of_test in_csi b h = cc

module _ (g : Geometry) (ok : IsGeometry g) where
  reload_some-Both : (w : Writer) (o : Option Term) → IsAimed g w → Both g (reload_some g w o) o
  reload_some-Both w none a = tt
  reload_some-Both w (some t) a = reload-Agrees g ok w t a

  write_byte-Both :
      (c : ℕ) (w : Writer)
      → IsAimed g w
      → IsValid g (flush w)
      → Both g (write_byte g c w) (slow_byte g c (flush w))
  unfolding write_byte
  write_byte-Both c w a v = elim (Bool-cases (is_idle w.mode && is_printable c)) [
    | inl plain ↦
        let (m, p) = idle_of_test w.mode (is_printable c) plain in
        rw plain (rw (slow_byte-printable g c (flush w) m p) (fast_byte-Agrees g ok c w a v))
    | inr special ↦ rw special (reload_some-Both w (slow_byte g c (flush w)) a)
  ]

  flush_some-eq : (o : Option Writer) (o' : Option Term) → Both g o o' → flush_some o ≡ o'
  flush_some-eq none none h = refl
  flush_some-eq none (some t) h = absurd h
  flush_some-eq (some w) none h = absurd h
  flush_some-eq (some w) (some t) h = ap some h.flushed

  write_loop_lem :
      (bytes : Bytes) (w : Writer)
      → IsAimed g w
      → IsValid g (flush w)
      → flush_some (write_loop g bytes w) ≡ write_slowly g bytes (flush w)
  unfolding write_loop write_slowly
  write_loop_lem [] w a v = refl
  write_loop_lem (c ∷ cs) w a v =
      go (write_byte g c w) (slow_byte g c (flush w)) (write_byte-Both c w a v)
        (slow_byte-IsValid g ok c (flush w) v) (write_loop_lem cs)
    where
      go :
          (o : Option Writer) (o' : Option Term)
          → Both g o o'
          → AllSome (IsValid g) o'
          → ((w' : Writer)
              → IsAimed g w'
              → IsValid g (flush w')
              → flush_some (write_loop g cs w') ≡ write_slowly g cs (flush w'))
          → flush_some (elim o [ none ↦ none | some w' ↦ write_loop g cs w' ])
            ≡ elim o' [ none ↦ none | some t' ↦ write_slowly g cs t' ]
      go none none b i ih = refl
      go none (some t) b i ih = absurd b
      go (some w') none b i ih = absurd b
      go (some w') (some t) b i ih = rw (← b.flushed) (ih w' b.aimed (rw b.flushed i))

-- `vterm_write` leaves the terminal in the state in which the general code leaves it when it is run
-- for each byte, and returns exactly where that does.
pub write-write_slowly :
    (g : Geometry) (bytes : Bytes) (t : Term)
    → IsGeometry g
    → IsValid g t
    → write g bytes t ≡ write_slowly g bytes t
unfolding write
write-write_slowly g bytes t ok v = write_loop_lem g ok bytes (load g t) (omega arith) v

write_slowly-IsValid :
    (g : Geometry) (bytes : Bytes) (t : Term)
    → IsGeometry g
    → IsValid g t
    → AllSome (IsValid g) (write_slowly g bytes t)
unfolding write_slowly
write_slowly-IsValid g [] t ok v = v
write_slowly-IsValid g (c ∷ cs) t ok v =
    go (slow_byte g c t) (slow_byte-IsValid g ok c t v)
      (λ t' v'. write_slowly-IsValid g cs t' ok v')
  where
    go :
        (o : Option Term)
        → AllSome (IsValid g) o
        → ((t' : Term) → IsValid g t' → AllSome (IsValid g) (write_slowly g cs t'))
        → AllSome (IsValid g) (elim o [ none ↦ none | some t' ↦ write_slowly g cs t' ])
    go none h ih = tt
    go (some t') h ih = ih t' h

write-AllSome :
    (g : Geometry) (bytes : Bytes) (t : Term)
    → IsGeometry g
    → IsValid g t
    → AllSome (IsValid g) (write g bytes t)
write-AllSome g bytes t ok v =
    rw (write-write_slowly g bytes t ok v) (write_slowly-IsValid g bytes t ok v)

-- Where the screen has an even number of cells, whatever bytes a program writes to a valid terminal,
-- if `vterm_write` returns and no `int` has overflowed, then the cursor is on the screen, the
-- attribute is a byte, the escape text fits its buffer, and no access was outside the cells.
pub write-IsValid :
    (g : Geometry) (bytes : Bytes) (t t' : Term)
    → IsGeometry g
    → IsValid g t
    → write g bytes t ≡ some t'
    → t'.overflow ≡ false
    → IsValid g t'
write-IsValid g bytes t t' ok v e exact = go (write g bytes t) e (write-AllSome g bytes t ok v)
  where
    go : (o : Option Term) → o ≡ some t' → AllSome (IsValid g) o → IsValid g t'
    go o e h = rw e at h
