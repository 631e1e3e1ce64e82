-- ===== src/Outcome.antt =====
-- mqtt_coder/src/mqtt.rs: `MqttError`, and what a call of the coder can come to.
use aqua.Base.{ap, ◌∙◌, ◌≡◌, ◌≢◌, refl, Bool, true, false, Option, none, some, if◌then◌else◌}

pub data MqttError : Type 0 where
  insufficient_bytes : MqttError
  invalid_format : MqttError
  not_implemented : MqttError
  unexpected : MqttError
  invalid_remaining_length : MqttError
  protocol_violation : MqttError

-- `panic` is a Rust panic: an index or slice out of range, an `unwrap` of `None`, `todo!()`, or an
-- arithmetic overflow, which builds with overflow checks trap. `out_of_fuel` is no Rust value: a
-- loop of the model ran through its fuel.
pub data Outcome {ℓ} (A : Type ℓ) : Type ℓ where
  ok : A → Outcome A
  err : MqttError → Outcome A
  panic : Outcome A
  out_of_fuel : Outcome A

infixl 5 ◌>>=◌
abbrev pub ◌>>=◌ {ℓ κ} : {A : Type ℓ} {B : Type κ} → Outcome A → (A → Outcome B) → Outcome B
ok a >>= f = f a
err e >>= f = err e
panic >>= f = panic
out_of_fuel >>= f = out_of_fuel

-- `o.ok_or(e)?` and `o.unwrap()`
abbrev pub ok_or {ℓ} : {A : Type ℓ} → Option A → MqttError → Outcome A
ok_or none e = err e
ok_or (some a) e = ok a

abbrev pub unwrap {ℓ} : {A : Type ℓ} → Option A → Outcome A
unwrap none = panic
unwrap (some a) = ok a

-- A block that gives a value: its first step gave one, and the rest went on from there.
pub >>=-eq-ok {ℓ κ} :
    {A : Type ℓ} {B : Type κ} (step : Outcome A) (rest : A → Outcome B) {out : B}
    → (step >>= rest) ≡ ok out
    → (got : A) × (step ≡ ok got) × (rest got ≡ ok out)
>>=-eq-ok (ok got) rest e = (got, refl, e)
>>=-eq-ok (err x) rest e = cc
>>=-eq-ok panic rest e = cc
>>=-eq-ok out_of_fuel rest e = cc

-- The other way: a block whose first step is known.
pub >>=-ok {ℓ κ} :
    {A : Type ℓ} {B : Type κ} {m : Outcome A} {r : Outcome B} (f : A → Outcome B) (a : A)
    → m ≡ ok a
    → f a ≡ r
    → (m >>= f) ≡ r
>>=-ok f a h k = ap (λ m. m >>= f) h ∙ k

-- The run came to an end within its fuel.
pub record Ends {ℓ} {A : Type ℓ} (m : Outcome A) : Type ℓ where
  pub ends : m ≢ out_of_fuel

-- The run ended, and without a panic.
abbrev pub IsSafe {ℓ} : {A : Type ℓ} → Outcome A → Type 0
IsSafe (ok a) = Unit
IsSafe (err e) = Unit
IsSafe panic = ⊥
IsSafe out_of_fuel = ⊥

pub IsSafe-Ends {ℓ} : {A : Type ℓ} (m : Outcome A) → IsSafe m → Ends m
IsSafe-Ends (ok a) h = record { ends = λ e. cc }
IsSafe-Ends (err x) h = record { ends = λ e. cc }
IsSafe-Ends panic h = record { ends = λ e. cc }
IsSafe-Ends out_of_fuel h = absurd h

pub IsSafe-if {ℓ} :
    {A : Type ℓ} (b : Bool) (m n : Outcome A) → IsSafe m → IsSafe n → IsSafe (if b then m else n)
IsSafe-if true m n hm hn = hm
IsSafe-if false m n hm hn = hn

-- One rule for each way to build a run.
pub Ends-ok {ℓ} : {A : Type ℓ} (a : A) → Ends (ok a)
Ends-ok a = record { ends = λ e. cc }

pub Ends-err {ℓ} : {A : Type ℓ} (x : MqttError) → Ends {A = A} (err x)
Ends-err x = record { ends = λ e. cc }

pub Ends-panic {ℓ} : {A : Type ℓ} → Ends {A = A} panic
Ends-panic = record { ends = λ e. cc }

pub Ends-if {ℓ} :
    {A : Type ℓ} (b : Bool) (m n : Outcome A) → Ends m → Ends n → Ends (if b then m else n)
Ends-if true m n hm hn = hm
Ends-if false m n hm hn = hn

pub Ends-bind {ℓ κ} :
    {A : Type ℓ} {B : Type κ} (m : Outcome A) (f : A → Outcome B)
    → Ends m
    → ((a : A) → Ends (f a))
    → Ends (m >>= f)
Ends-bind (ok a) f h k = k a
Ends-bind (err e) f h k = record { ends = λ p. cc }
Ends-bind panic f h k = record { ends = λ p. cc }
Ends-bind out_of_fuel f h k = absurd (h.ends refl)

-- The rest of the block may use what the first step gave.
pub Ends-bind_ok {ℓ κ} :
    {A : Type ℓ} {B : Type κ} (m : Outcome A) (f : A → Outcome B)
    → Ends m
    → ((a : A) → m ≡ ok a → Ends (f a))
    → Ends (m >>= f)
Ends-bind_ok (ok a) f h k = k a refl
Ends-bind_ok (err e) f h k = record { ends = λ p. cc }
Ends-bind_ok panic f h k = record { ends = λ p. cc }
Ends-bind_ok out_of_fuel f h k = absurd (h.ends refl)

pub Ends-ok_or {ℓ} : {A : Type ℓ} (o : Option A) (x : MqttError) → Ends (ok_or o x)
Ends-ok_or none x = Ends-err x
Ends-ok_or (some a) x = Ends-ok a

pub Ends-unwrap {ℓ} : {A : Type ℓ} (o : Option A) → Ends (unwrap o)
Ends-unwrap none = Ends-panic
Ends-unwrap (some a) = Ends-ok a

pub ruleset ends_rules =
    (Ends-ok, Ends-err, Ends-panic, Ends-if, Ends-bind, Ends-ok_or, Ends-unwrap)
