-- ===== src/Proxy/Conn.antt =====
-- A client's connection as the proxy code uses it (`io.ReadFull` and `Write` on a `net.Conn`), and
-- the errors of image/agent/internal/proxy/socks5.go.
use expressvpn_container.Base.{
  ap, drop-append, take-append, length-append, ℕ, Bool, true, false, [], ◌∷◌, ◌++◌, ◌≡◌, refl, ◌≤◌,
  leb, length, take, drop, if◌then◌else◌, arith, take-append-drop,
}
use expressvpn_container.Base.Text.{Bytes}

-- What the client will send before it stops, and what it has been sent. A write to a deaf peer
-- fails.
pub record Conn : Type 0 where
  pub input : Bytes
  pub output : Bytes
  pub deaf : Bool

pub data Error : Type 0 where
  short_read write_failed not_socks5 no_method bad_userpass_version bad_credentials : Error
  bad_request_version unsupported_addr : Error

pub data Result {ℓ} (A : Type ℓ) : Type ℓ where
  ok : A → Result A
  err : Error → Result A

abbrev pub M : Type 0 → Type 0
M A = Conn → Result A × Conn

abbrev pub pure : {A : Type 0} → A → M A
pure a c = (ok a, c)

abbrev pub raise : {A : Type 0} → Error → M A
raise e c = (err e, c)

abbrev pub after : {A B : Type 0} → (A → M B) → Result A → Conn → Result B × Conn
after f (ok a) c = f a c
after f (err e) c = (err e, c)

infixl 5 ◌>>=◌ ◌>>◌
abbrev pub ◌>>=◌ : {A B : Type 0} → M A → (A → M B) → M B
◌>>=◌ m f c = let (r, c') = m c in after f r c'

abbrev pub ◌>>◌ : {B : Type 0} → M (Unit {0}) → M B → M B
m >> k = m >>= λ _. k

abbrev pub guard : Bool → Error → M (Unit {0})
guard true e = pure tt
guard false e = raise e

-- `io.ReadFull` into a buffer of `n` bytes; what a short read has taken is gone.
unfoldable pub read_full : ℕ → M Bytes
read_full n c =
    if leb n (length c.input)
    then (ok (take n c.input), record c { input = drop n c.input })
    else (err short_read, record c { input = [] })

unfoldable pub write : Bytes → M (Unit {0})
write bs c = if c.deaf then (err write_failed, c) else (ok tt, record c { output = c.output ++ bs })

-- A byte of a buffer that has it.
abbrev pub byte_at : Bytes → ℕ → ℕ
byte_at [] i = 0
byte_at (b ∷ bs) ℕ.zero = b
byte_at (b ∷ bs) (ℕ.suc i) = byte_at bs i

-- Reading exactly the bytes at the front.
pub read_full-append :
    (bs rest out : Bytes) (deaf : Bool)
    → read_full (length bs) (record { input = bs ++ rest; output = out; deaf = deaf })
      ≡ (ok bs, record { input = rest; output = out; deaf = deaf })
unfolding read_full
read_full-append bs rest out deaf =
    ground (arith, length-append bs rest, take-append bs rest, drop-append bs rest)

-- What a successful read tells of the input.
pub record Took (n : ℕ) (bs : Bytes) (c c' : Conn) : Type 0 where
  pub split : c.input ≡ bs ++ c'.input
  pub size : length bs ≡ n
  pub output_same : c'.output ≡ c.output
  pub deaf_same : c'.deaf ≡ c.deaf

length-take : (n : ℕ) (xs : Bytes) → n ≤ length xs → length (take n xs) ≡ n
length-take ℕ.zero xs h = refl
length-take (ℕ.suc n) [] h = absurd (omega arith)
length-take (ℕ.suc n) (x ∷ xs) h = omega (arith, length-take n xs)

pub read_full-ok :
    (n : ℕ) (c : Conn) {bs : Bytes} {c' : Conn} → read_full n c ≡ (ok bs, c') → Took n bs c c'
unfolding read_full
read_full-ok n c h = ground (arith, take-append-drop n c.input, length-take n c.input)

after-ok :
    {A B : Type 0} (f : A → M B) (r : Result A) (c : Conn) {b : B} {c' : Conn}
    → after f r c ≡ (ok b, c')
    → (a : A) × (r ≡ ok a) × (f a c ≡ (ok b, c'))
after-ok f (ok a) c h = (a, refl, h)
after-ok f (err e) c h = cc (ap (λ p. p.0) h)

-- Inversion of a successful bind.
pub bind-ok :
    {A B : Type 0} (m : M A) (f : A → M B) (c : Conn) {b : B} {c' : Conn}
    → (m >>= f) c ≡ (ok b, c')
    → (a : A) × (c1 : Conn) × (m c ≡ (ok a, c1)) × (f a c1 ≡ (ok b, c'))
bind-ok m f c h =
    let (a, r, k) = after-ok f (m c).0 (m c).1 h in (a, (m c).1, ap (λ x. (x, (m c).1)) r, k)

pub guard-ok :
    {B : Type 0} (g : Bool) (e : Error) (k : M B) (c : Conn) {b : B} {c' : Conn}
    → (guard g e >> k) c ≡ (ok b, c')
    → (g ≡ true) × (k c ≡ (ok b, c'))
guard-ok true e k c h = (refl, h)
guard-ok false e k c h = cc (ap (λ p. p.0) h)

pub one_byte : (bs : Bytes) → length bs ≡ 1 → bs ≡ byte_at bs 0 ∷ []
one_byte [] h = absurd (omega arith)
one_byte (a ∷ []) h = refl
one_byte (a ∷ b ∷ bs) h = absurd (omega arith)

pub two_bytes : (bs : Bytes) → length bs ≡ 2 → bs ≡ byte_at bs 0 ∷ byte_at bs 1 ∷ []
two_bytes [] h = absurd (omega arith)
two_bytes (a ∷ []) h = absurd (omega arith)
two_bytes (a ∷ b ∷ []) h = refl
two_bytes (a ∷ b ∷ c ∷ bs) h = absurd (omega arith)
