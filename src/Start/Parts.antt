-- ===== src/Start/Parts.antt =====
-- A run of a part of the machine, in front of the rest.
use nju_oslab.Prelude.{Run, and_then, Returns, returns}
use nju_oslab.Fs.State.{Fs, FsM}
use nju_oslab.Kernel.State.{Kernel, KernelM}
use nju_oslab.Start.{Machine, in_fs, in_kernel, on_fs, on_kernel}

module _ {A B : Type 0} {Q : B → Machine → Type 0} where
  pub on_fs-Returns :
      (m : FsM A) (s : Machine) (P : A → Fs → Type 0) (k : A → Machine → Run Machine B)
      → Returns P (m s.fs)
      → ((a : A) (t : Fs) → P a t → Returns Q (k a (record s { fs = t })))
      → Returns Q (and_then (on_fs m s) k)
  on_fs-Returns m s P k r next = go (m s.fs) r
    where
      go : (x : Run Fs A) → Returns P x → Returns Q (and_then (in_fs s x) k)
      go x (returns p) = next _ _ p

  pub on_kernel-Returns :
      (m : KernelM A) (s : Machine) (P : A → Kernel → Type 0) (k : A → Machine → Run Machine B)
      → Returns P (m s.kernel)
      → ((a : A) (t : Kernel) → P a t → Returns Q (k a (record s { kernel = t })))
      → Returns Q (and_then (on_kernel m s) k)
  on_kernel-Returns m s P k r next = go (m s.kernel) r
    where
      go : (x : Run Kernel A) → Returns P x → Returns Q (and_then (in_kernel s x) k)
      go x (returns p) = next _ _ p

pub on_kernel-last :
    {A : Type 0} {Q : A → Machine → Type 0} (m : KernelM A) (s : Machine) (P : A → Kernel → Type 0)
    → Returns P (m s.kernel)
    → ((a : A) (t : Kernel) → P a t → Q a (record s { kernel = t }))
    → Returns Q (on_kernel m s)
on_kernel-last {A} {Q} m s P r next = go (m s.kernel) r
  where
    go : (x : Run Kernel A) → Returns P x → Returns Q (in_kernel s x)
    go x (returns p) = returns (next _ _ p)
