-- ===== src/Shell/Run/Post.antt =====
-- What holds of a process that goes on: postconditions, and the rule for a sequence of calls.
use nycu_np.Shell.Kernel.{Log, Proc, Outcome, running, exited, fault, bind_outcome}

-- A process that has left, or is undefined, meets every postcondition.
abbrev pub Post {ℓ} : {A : Type 0} → (A → Log → Type ℓ) → Outcome A → Type ℓ
Post P (running a l) = P a l
Post P (exited l) = Unit
Post P fault = Unit

pub Post-bind {ℓ κ} :
    {A B : Type 0} (P : A → Log → Type ℓ) (Q : B → Log → Type κ) (m : Outcome A) (f : A → Proc B)
    → Post P m
    → ((a : A) (l : Log) → P a l → Post Q (f a l))
    → Post Q (bind_outcome m f)
Post-bind P Q (running a l) f h next = next a l h
Post-bind P Q (exited l) f h next = tt
Post-bind P Q fault f h next = tt

pub Post-mono {ℓ κ} :
    {A : Type 0} (P : A → Log → Type ℓ) (Q : A → Log → Type κ) (m : Outcome A)
    → Post P m
    → ((a : A) (l : Log) → P a l → Q a l)
    → Post Q m
Post-mono P Q (running a l) h k = k a l h
Post-mono P Q (exited l) h k = tt
Post-mono P Q fault h k = tt

-- What follows a process needs nothing of what it returns.
pub Post-seq {κ} :
    {A B : Type 0} (Q : B → Log → Type κ) (m : Outcome A) (f : A → Proc B)
    → ((a : A) (l : Log) → Post Q (f a l))
    → Post Q (bind_outcome m f)
Post-seq Q (running a l) f next = next a l
Post-seq Q (exited l) f next = tt
Post-seq Q fault f next = tt

pub Post-both {ℓ κ} :
    {A : Type 0} (P : A → Log → Type ℓ) (Q : A → Log → Type κ) (m : Outcome A)
    → Post P m
    → Post Q m
    → Post (λ a l. P a l × Q a l) m
Post-both P Q (running a l) h k = (h, k)
Post-both P Q (exited l) h k = tt
Post-both P Q fault h k = tt

-- What holds of a process that does go on.
abbrev pub Runs : {A : Type 0} → (A → Log → Type 0) → Outcome A → Type 0
Runs P (running a l) = P a l
Runs P (exited l) = ⊥
Runs P fault = ⊥

pub Runs-bind :
    {A B : Type 0} (P : A → Log → Type 0) (Q : B → Log → Type 0) (m : Outcome A) (f : A → Proc B)
    → Runs P m
    → ((a : A) (l : Log) → P a l → Runs Q (f a l))
    → Runs Q (bind_outcome m f)
Runs-bind P Q (running a l) f h next = next a l h
Runs-bind P Q (exited l) f h next = h
Runs-bind P Q fault f h next = h

pub Runs-mono :
    {A : Type 0} (P Q : A → Log → Type 0) (m : Outcome A)
    → Runs P m
    → ((a : A) (l : Log) → P a l → Q a l)
    → Runs Q m
Runs-mono P Q (running a l) h next = next a l h
Runs-mono P Q (exited l) h next = h
Runs-mono P Q fault h next = h
