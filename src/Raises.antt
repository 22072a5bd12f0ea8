-- ===== src/Raises.antt =====
-- Which exceptions a call may raise.
use scooling_lab.Base.{Bool, true, false, ◌≡◌}
use scooling_lab.Errors.{Exception, Result, ok, err, ◌>>=◌, raise_if}

-- every exception that the call raises passes the test
abbrev pub RaisesOnly {ℓ} : {A : Type ℓ} → (Exception → Bool) → Result A → Type ℓ
RaisesOnly {A = A} q m = (e : Exception) → m ≡ err e → q e ≡ true

pub ok-RaisesOnly {ℓ} : {A : Type ℓ} (q : Exception → Bool) (a : A) → RaisesOnly q (ok a)
ok-RaisesOnly q a e h = cc h

pub err-RaisesOnly {ℓ} :
    {A : Type ℓ} (q : Exception → Bool) (x : Exception) → q x ≡ true → RaisesOnly {A = A} q (err x)
err-RaisesOnly q x h e k = cc (h, k)

pub bind-RaisesOnly {ℓ κ} :
    {A : Type ℓ} {B : Type κ} (q : Exception → Bool) (m : Result A) (f : A → Result B)
    → RaisesOnly q m
    → ((a : A) → RaisesOnly q (f a))
    → RaisesOnly q (m >>= f)
bind-RaisesOnly q (ok a) f h k e x = k a e x
bind-RaisesOnly q (err y) f h k e x = h e (cc x)

pub raise_if-RaisesOnly {κ} :
    {B : Type κ} (q : Exception → Bool) (b : Bool) (x : Exception) (f : Unit {0} → Result B)
    → q x ≡ true
    → RaisesOnly q (f tt)
    → RaisesOnly q (raise_if b x >>= f)
raise_if-RaisesOnly q true x f h k e y = cc (h, y)
raise_if-RaisesOnly q false x f h k e y = k e y
