-- ===== src/Shell/Arith/Settles.antt =====
-- Computations of src/components/breezybox/shell/sh_arith.c that need fuel and come to an end.
use breezybox.Prelude.{
  ℕ, zero, suc, ◌+◌, ◌≤◌, ◌≡◌, refl, Bool, true, false, if◌then◌else◌, Bytes, ℤ, Option, none, some,
  length, arith, ◌∙◌, ap,
}
use breezybox.Shell.State.Vars.{State}
use breezybox.Shell.Arith.Syntax.{Context, Task}
use breezybox.Shell.Arith.Parse.{fail, and_then, body, parse}

module _ {Body : Type 0} (P : State Body → Type 0) where
  -- A context with at most `m` bytes left, at depth `d`, whose state has the property.
  pub record Within (m d : ℕ) (c : Context Body) : Type 0 where
    pub short : length c.p ≤ m
    pub depth_is : c.depth ≡ d
    pub state_has : P c.st

  -- With enough fuel there is always one and the same result, and it is such a context.
  pub record Settles (m d : ℕ) (computation : ℕ → Option (ℤ × Context Body)) : Type 0 where
    pub fuel : ℕ
    pub result : ℤ
    pub last : Context Body
    pub ends : (k : ℕ) → fuel ≤ k → computation k ≡ some (result, last)
    pub within : Within m d last

  pub settled : (m d : ℕ) (v : ℤ) (c : Context Body) → Within m d c → Settles m d (λ k. some (v, c))
  settled m d v c w = record { fuel = 0; result = v; last = c; ends = λ k h. refl; within = w }

  -- One computation behind another.
  pub and_then-Settles :
      (m n d e : ℕ) (first : ℕ → Option (ℤ × Context Body))
      (next : ℕ → ℤ → Context Body → Option (ℤ × Context Body))
      → Settles m d first
      → ((v : ℤ) (c : Context Body) → Within m d c → Settles n e (λ k. next k v c))
      → Settles n e (λ k. and_then (first k) (next k))
  and_then-Settles m n d e first next s t =
      let u = t s.result s.last s.within in
      record {
        fuel = s.fuel + u.fuel;
        result = u.result;
        last = u.last;
        ends =
            λ k h. ap (λ o. and_then o (next k)) (s.ends k (omega arith)) ∙ u.ends k (omega arith);
        within = u.within;
      }

  pub if-Settles :
      (m d : ℕ) (b : Bool) (x y : ℕ → Option (ℤ × Context Body))
      → (b ≡ true → Settles m d x)
      → (b ≡ false → Settles m d y)
      → Settles m d (λ k. if b then x k else y k)
  if-Settles m d true x y s t = s refl
  if-Settles m d false x y s t = t refl

  -- A call takes one unit of fuel more than its body.
  pub parse-Settles :
      (m d : ℕ) (task : Task) (c : Context Body)
      → Settles m d (λ k. body (parse k) task c)
      → Settles m d (λ k. parse k task c)
  unfolding parse
  parse-Settles m d task c s = record {
    fuel = suc s.fuel;
    result = s.result;
    last = s.last;
    ends = go;
    within = s.within;
  }
    where
      go : (k : ℕ) → suc s.fuel ≤ k → parse k task c ≡ some (s.result, s.last)
      go zero h = absurd (omega arith)
      go (suc k) h = s.ends k (omega arith)

  pub Within_le : {m n d : ℕ} {c : Context Body} → m ≤ n → Within m d c → Within n d c
  Within_le h w = record {
    short = omega (arith, w.short, h);
    depth_is = w.depth_is;
    state_has = w.state_has;
  }

  pub fail-Within :
      (m d : ℕ) (message : Bytes) (c : Context Body) → Within m d c → Within m d (fail message c)
  fail-Within m d message c w = go c.err
    where
      go :
          (e : Option Bytes)
          → Within m d (elim e [ none ↦ record c { err = some message } | some first ↦ c ])
      go none = record { short = w.short; depth_is = w.depth_is; state_has = w.state_has }
      go (some first) = w

  pub Settles_le :
      {m n d : ℕ} {computation : ℕ → Option (ℤ × Context Body)}
      → m ≤ n
      → Settles m d computation
      → Settles n d computation
  Settles_le h s = record {
    fuel = s.fuel;
    result = s.result;
    last = s.last;
    ends = s.ends;
    within = Within_le h s.within;
  }
