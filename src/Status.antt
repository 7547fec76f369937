-- ===== src/Status.antt =====
-- kit/status/errno.spec.hpp, error.hpp and bug.hpp: an errno, an error with its class, a result, and
-- a broken invariant, which is fatal. Where an error was made (`std::source_location`) and the two
-- numbers of a report are not kept, since no behaviour rests on them.
pub mod Codes
use xpute.Common.{◌≡◌, refl, ◌⊎◌, inl, inr, Bool, true, false, Option, none, some}

pub data Errno : Type 0 where
  ok eperm enoent esrch eintr eio enxio e2big enoexec ebadf echild eagain enomem eacces : Errno
  efault ebusy eexist exdev enodev enotdir eisdir einval enfile emfile enotty efbig : Errno
  enospc espipe erofs emlink epipe edom erange enosys eproto ebadmsg eoverflow emsgsize : Errno
  enotsup eilseq eaddrinuse eaddrnotavail enetdown enetunreach enetreset econnaborted : Errno
  econnreset enobufs eisconn enotconn eshutdown etoomanyrefs etimedout econnrefused : Errno
  ehostdown ehostunreach ealready einprogress ecanceled enotrecoverable : Errno

pub data ErrorClass : Type 0 where
  invariant fault marshal network : ErrorClass

pub record Error : Type 0 where
  pub errnum : Errno
  pub cls : ErrorClass

abbrev pub make_error : ErrorClass → Errno → Error
make_error c e = record { errnum = e; cls = c }

abbrev pub marshal_error : Errno → Error
marshal_error e = record { errnum = e; cls = marshal }

-- `Result<T>`: a value, or the error in its place.
pub data Result {ℓ} (A : Type ℓ) : Type ℓ where
  val : A → Result A
  err : Error → Result A

-- A call that may break an invariant: it returns, or `bug` stops the program with an errno.
pub data Run {ℓ} (A : Type ℓ) : Type ℓ where
  done : A → Run A
  bug : Errno → Run A

infixl 5 ◌>>=◌ ◌>>◌
abbrev pub ◌>>=◌ {ℓ κ} : {A : Type ℓ} {B : Type κ} → Run A → (A → Run B) → Run B
done a >>= f = f a
bug e >>= f = bug e

abbrev pub ◌>>◌ {ℓ} : {B : Type ℓ} → Run (Unit {0}) → Run B → Run B
m >> k = m >>= λ _. k

abbrev pub ensure : Bool → Errno → Run (Unit {0})
ensure true e = done tt
ensure false e = bug e

abbrev pub or_bug {ℓ} : {A : Type ℓ} → Option A → Errno → Run A
or_bug none e = bug e
or_bug (some a) e = done a

abbrev pub map_run {ℓ κ} : {A : Type ℓ} {B : Type κ} → (A → B) → Run A → Run B
map_run f (done a) = done (f a)
map_run f (bug e) = bug e

-- To split on how a call ended and keep the equation.
pub Run-cases {ℓ} :
    {A : Type ℓ} (r : Run A) → ((a : A) × (r ≡ done a)) ⊎ ((e : Errno) × (r ≡ bug e))
Run-cases (done a) = inl (a, refl)
Run-cases (bug e) = inr (e, refl)

pub Result-cases {ℓ} :
    {A : Type ℓ} (r : Result A) → ((a : A) × (r ≡ val a)) ⊎ ((e : Error) × (r ≡ err e))
Result-cases (val a) = inl (a, refl)
Result-cases (err e) = inr (e, refl)

-- A chain of calls, and two that go on alike.
pub >>=-chain {ℓ κ μ} :
    {A : Type ℓ} {B : Type κ} {C : Type μ} (x : Run A) (f : A → Run B) (g : B → Run C)
    → ((x >>= f) >>= g) ≡ (x >>= λ a. f a >>= g)
>>=-chain (done a) f g = refl
>>=-chain (bug e) f g = refl

pub >>=-alike {ℓ κ} :
    {A : Type ℓ} {B : Type κ} (x : Run A) {f g : A → Run B}
    → ((a : A) → f a ≡ g a)
    → (x >>= f) ≡ (x >>= g)
>>=-alike (done a) h = h a
>>=-alike (bug e) h = refl
