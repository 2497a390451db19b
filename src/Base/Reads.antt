-- ===== src/Base/Reads.antt =====
-- Reads of a C buffer. `none` is a fault: a read past the end of the buffer.
use Prim.Native.Nat.{ℕ, suc, ◌+◌}
use mathlib.Core.Path.{◌≡◌, ap, ◌∙◌}
use mathlib.Core.List.{List, [], ◌∷◌, ◌++◌}
use native.Mathlib.Omega.{arith}
use mathlib.Core.Option.{Option, none, some}
use earport_handoff.Base.Tests.{leb, if◌then◌else◌}
use earport_handoff.Base.Lists.{get_elem?, length, take, drop}

infixl 5 ◌>>=◌
abbrev pub ◌>>=◌ {ℓ κ} : {A : Type ℓ} {B : Type κ} → Option A → (A → Option B) → Option B
none >>= f = none
some a >>= f = f a

-- `data[i]`
abbrev pub byte : List ℕ → ℕ → Option ℕ
byte = get_elem?

-- The computation ends with a value: no read has gone past the end.
abbrev pub Returns {ℓ} : {A : Type ℓ} → Option A → Type ℓ
Returns {A} m = (a : A) × (m ≡ some a)

-- The `n` bytes from `data + offset` on, as `memcpy` and `memcmp` read them.
abbrev pub slice : List ℕ → ℕ → ℕ → Option (List ℕ)
slice buffer offset n =
    if leb (offset + n) (length buffer) then some (take n (drop offset buffer)) else none

-- Reads behind a known front.
pub byte-append :
    (before after : List ℕ) (i : ℕ) → byte (before ++ after) (length before + i) ≡ byte after i
byte-append [] after i = ap (byte after) (omega arith)
byte-append (x ∷ before) after i =
    let e : suc (length before) + i ≡ suc (length before + i) = omega arith in
    ap (byte (x ∷ (before ++ after))) e ∙ byte-append before after i

pub byte_at :
    (before after buffer : List ℕ) (i j : ℕ)
    → buffer ≡ before ++ after
    → j ≡ length before + i
    → byte buffer j ≡ byte after i
byte_at before after buffer i j e k =
    ap (byte buffer) k ∙ ap (λ b. byte b (length before + i)) e ∙ byte-append before after i
