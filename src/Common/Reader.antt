-- ===== src/Common/Reader.antt =====
-- A reader of a byte string with a cursor, and when it reads what a writer wrote.
use Prim.Native.Nat.{ℕ, ◌+◌, ◌<◌, ◌^◌}
use mathlib.Core.Path.{◌≡◌, refl, ap, sym, subst, ◌∙◌}
use mathlib.Core.Bool.{Bool, true, false}
use mathlib.Core.List.{[], ◌++◌, append_assoc, append-nil}
use native.Mathlib.Omega.{arith}
use serctl.Common.Tests.{leb, le→leb, if◌then◌else◌}
use serctl.Common.Lists.{length, take, drop, length-append, take-length, drop-length, drop-drop}
use serctl.Common.Encoding.{Bytes, to_be_bytes, from_be_bytes, from_be-to_be, length-to_be_bytes}
use serctl.Common.Fallible.{Result, ok, err}

pub record Cursor : Type 0 where
  pub bytes : Bytes
  pub cursor : ℕ

abbrev pub Reader {ℓ κ} : Type ℓ → Type κ → Type (ℓ ⊔ κ)
Reader E A = Cursor → Result E (A × Cursor)

module _ {ℓ} {E : Type ℓ} where
  -- `bytes.get(cursor..cursor + n)`, and the cursor moved past it. A sum that overflowed would be
  -- beyond the end too.
  unfoldable pub take_slice : E → ℕ → Reader E Bytes
  take_slice e n c =
      if leb (c.cursor + n) (length c.bytes)
      then ok (take n (drop c.cursor c.bytes), record c { cursor = c.cursor + n })
      else err e

  abbrev pub read_pure {κ} : {A : Type κ} → A → Reader E A
  read_pure a c = ok (a, c)

  abbrev pub read_lift {κ} : {A : Type κ} → Result E A → Reader E A
  read_lift (ok a) c = ok (a, c)
  read_lift (err e) c = err e

abbrev continue {ℓ κ μ} :
    {E : Type ℓ} {A : Type κ} {B : Type μ}
    → Result E (A × Cursor)
    → (A → Reader E B)
    → Result E (B × Cursor)
continue (ok (a, c)) f = f a c
continue (err e) f = err e

infixl 5 ◌>>=◌ ◌>>◌
unfoldable pub ◌>>=◌ {ℓ κ μ} :
    {E : Type ℓ} {A : Type κ} {B : Type μ} → Reader E A → (A → Reader E B) → Reader E B
◌>>=◌ m f c = continue (m c) f

abbrev pub ◌>>◌ {ℓ κ} : {E : Type ℓ} {B : Type κ} → Reader E (Unit {0}) → Reader E B → Reader E B
m >> k = m >>= λ _. k

-- `rest` is what lies behind the cursor.
pub record At (c : Cursor) (rest : Bytes) : Type 0 where
  pub behind : drop c.cursor c.bytes ≡ rest
  pub total : c.cursor + length rest ≡ length c.bytes

-- Where the bytes `x` lie behind the cursor, `m` returns `v` and moves the cursor past them.
pub record Reads {ℓ κ} {E : Type ℓ} {A : Type κ} (m : Reader E A) (x : Bytes) (v : A)
    : Type (ℓ ⊔ κ) where
  pub at :
      (c : Cursor) (rest : Bytes)
      → At c (x ++ rest)
      → (d : Cursor) × (m c ≡ ok (v, d)) × (d.bytes ≡ c.bytes) × At d rest

module _ {ℓ κ} {E : Type ℓ} {A : Type κ} where
  pub Reads-pure : (v : A) → Reads (read_pure {E = E} v) [] v
  Reads-pure v = record { at = λ c rest h. (c, refl, refl, h) }

  pub Reads-lift : (r : Result E A) (v : A) → r ≡ ok v → Reads (read_lift r) [] v
  Reads-lift r v e = record { at = λ c rest h. (c, rw e refl, refl, h) }

module _ {ℓ κ μ} {E : Type ℓ} {A : Type κ} {B : Type μ} where
  pub Reads-bind :
      {m : Reader E A} (f : A → Reader E B) {x y : Bytes} {v : A} {w : B}
      → Reads m x v
      → Reads (f v) y w
      → Reads (m >>= f) (x ++ y) w
  unfolding ◌>>=◌
  Reads-bind {m} f {x} {y} {v} {w} hm hf = record {
    at = λ c rest h.
        let (d, e, s, k) = hm.at c (y ++ rest) (rw append_assoc at h) in
        let (d', e', s', k') = hf.at d rest k in (d', rw e e', s' ∙ s, k');
  }

  -- The last step of a block.
  pub Reads-last :
      {m : Reader E A} (f : A → Reader E B) {x : Bytes} {v : A} {w : B}
      → Reads m x v
      → Reads (f v) [] w
      → Reads (m >>= f) x w
  Reads-last {m} f {x} {v} {w} hm hf =
      subst (λ y. Reads (m >>= f) y w) (append-nil x) (Reads-bind f hm hf)

  -- A check on what was read, which reads nothing.
  pub Reads-check :
      {r : Result E A} (f : A → Reader E B) {x : Bytes} (v : A) {w : B}
      → r ≡ ok v
      → Reads (f v) x w
      → Reads (read_lift r >>= f) x w
  unfolding ◌>>=◌
  Reads-check {r} f {x} v {w} e hf = record { at = λ c rest h. rw e (hf.at c rest h) }

-- The same where nothing comes after `x`.
pub record ReadsEnd {ℓ κ} {E : Type ℓ} {A : Type κ} (m : Reader E A) (x : Bytes) (v : A)
    : Type (ℓ ⊔ κ) where
  pub at_end :
      (c : Cursor) → At c x → (d : Cursor) × (m c ≡ ok (v, d)) × (d.bytes ≡ c.bytes) × At d []

pub Reads-ReadsEnd {ℓ κ} :
    {E : Type ℓ} {A : Type κ} (m : Reader E A) (x : Bytes) (v : A) → Reads m x v → ReadsEnd m x v
Reads-ReadsEnd m x v r = record { at_end = λ c h. r.at c [] (rw append-nil h) }

module _ {ℓ κ μ} {E : Type ℓ} {A : Type κ} {B : Type μ} where
  pub ReadsEnd-bind :
      {m : Reader E A} (f : A → Reader E B) {x y : Bytes} {v : A} {w : B}
      → Reads m x v
      → ReadsEnd (f v) y w
      → ReadsEnd (m >>= f) (x ++ y) w
  unfolding ◌>>=◌
  ReadsEnd-bind {m} f {x} {y} {v} {w} hm hf = record {
    at_end = λ c h.
        let (d, e, s, k) = hm.at c y h in
        let (d', e', s', k') = hf.at_end d k in (d', rw e e', s' ∙ s, k');
  }

  pub ReadsEnd-last :
      {m : Reader E A} (f : A → Reader E B) {x : Bytes} {v : A} {w : B}
      → ReadsEnd m x v
      → Reads (f v) [] w
      → ReadsEnd (m >>= f) x w
  unfolding ◌>>=◌
  ReadsEnd-last {m} f {x} {v} {w} hm hf = record {
    at_end = λ c h.
        let (d, e, s, k) = hm.at_end c h in
        let (d', e', s', k') = hf.at d [] k in (d', rw e e', s' ∙ s, k');
  }

module _ {ℓ} {E : Type ℓ} (e : E) where
  Reads-take_length : (x : Bytes) → Reads (take_slice e (length x)) x x
  unfolding take_slice
  Reads-take_length x = record {
    at = λ c rest h. (
      record c { cursor = c.cursor + length x },
      rw
          (le→leb (c.cursor + length x) (length c.bytes)
            (omega (arith, h.total, length-append {0} x rest)))
          (rw h.behind (rw take-length)),
      refl,
      record {
        behind = sym (drop-drop c.cursor (length x) c.bytes) ∙ rw h.behind (drop-length x rest);
        total = omega (arith, h.total, length-append {0} x rest);
      },
    );
  }

  pub Reads-take : (n : ℕ) (x : Bytes) → length x ≡ n → Reads (take_slice e n) x x
  Reads-take n x l = rw (← l) (Reads-take_length x)

  -- A big-endian integer of `k` bytes.
  unfoldable pub read_be : ℕ → Reader E ℕ
  unfolding take_slice ◌>>=◌
  read_be k = do bs ← take_slice e k; read_pure (from_be_bytes bs)

  pub Reads-be : (k v : ℕ) → v < 256 ^ k → Reads (read_be k) (to_be_bytes k v) v
  unfolding read_be
  Reads-be k v h =
      Reads-last _ (Reads-take k (to_be_bytes k v) (length-to_be_bytes k v))
        (rw (from_be-to_be k v h) (Reads-pure v))

-- A reader that reads all of a byte string from its start.
pub Reads-all {ℓ κ} :
    {E : Type ℓ} {A : Type κ} (m : Reader E A) (x : Bytes) (v : A) (c : Cursor)
    → Reads m x v
    → At c x
    → (d : Cursor) × (m c ≡ ok (v, d)) × (d.cursor ≡ length c.bytes)
Reads-all m x v c r h =
    let (d, e, s, k) = r.at c [] (rw append-nil h) in
    (d, e, omega (arith, k.total, ap (λ (b : Bytes). length b) s))

-- Both steps of a reader that succeeds have succeeded.
pub reads-eq-ok {ℓ κ μ} :
    {E : Type ℓ} {A : Type κ} {B : Type μ} (m : Reader E A) (f : A → Reader E B) (c e : Cursor)
    (b : B)
    → (m >>= f) c ≡ ok (b, e)
    → (a : A) × (d : Cursor) × (m c ≡ ok (a, d)) × (f a d ≡ ok (b, e))
unfolding ◌>>=◌
reads-eq-ok {E} {A} {B} m f c e b h = inverted (m c) refl
  where
    inverted :
        (r : Result E (A × Cursor))
        → r ≡ m c
        → (a : A) × (d : Cursor) × (m c ≡ ok (a, d)) × (f a d ≡ ok (b, e))
    inverted (ok (a, d)) k = (a, d, sym k, subst (λ x. continue x f ≡ ok (b, e)) (sym k) h)
    inverted (err x) k = cc (subst (λ x. continue x f ≡ ok (b, e)) (sym k) h)

-- Whatever `m` returns has `P`.
pub record Returns {ℓ κ μ} {E : Type ℓ} {A : Type κ} (P : A → Type μ) (m : Reader E A)
    : Type (ℓ ⊔ κ ⊔ μ) where
  pub always : (c d : Cursor) (a : A) → m c ≡ ok (a, d) → P a

module _ {ℓ κ μ} {E : Type ℓ} {A : Type κ} (P : A → Type μ) where
  pub Returns-bind {ν} :
      {B : Type ν} (m : Reader E B) (f : B → Reader E A)
      → ((b : B) → Returns P (f b))
      → Returns P (m >>= f)
  Returns-bind m f h = record {
    always = λ c d a e. let (b, c1, e1, e2) = reads-eq-ok m f c d a e in (h b).always c1 d a e2;
  }

  lifted-eq-ok : (r : Result E A) (c d : Cursor) (a : A) → read_lift r c ≡ ok (a, d) → r ≡ ok a
  lifted-eq-ok (ok b) c d a h = cc
  lifted-eq-ok (err e) c d a h = cc

  pub Returns-lift : (r : Result E A) → ((a : A) → r ≡ ok a → P a) → Returns P (read_lift r)
  Returns-lift r h = record { always = λ c d a e. h a (lifted-eq-ok r c d a e) }

  pub Returns-if :
      (b : Bool) (m k : Reader E A) → Returns P m → Returns P k → Returns P (if b then m else k)
  Returns-if true m k h i = h
  Returns-if false m k h i = i
