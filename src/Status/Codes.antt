-- ===== src/Status/Codes.antt =====
-- The numbers of kit/status/errno.spec.hpp: what each errno is on the wire, and the way back.
mod Tests
use xpute.Common.{
  ℕ, ◌==◌, ◌≡◌, refl, Option, none, some, List, [], ◌∷◌, if◌then◌else◌, All, ◌↔◌, Bool-cases,
  ==_iff, inl, inr, sym, ap, some_inj,
}
use xpute.Common.Int.{ℤ, pos, negsuc}
use xpute.Status.{Errno}

-- The member's value, as the enumeration gives it.
pub code : Errno → ℤ
code Errno.ok = pos 0
code Errno.eperm = negsuc 0
code Errno.enoent = negsuc 1
code Errno.esrch = negsuc 2
code Errno.eintr = negsuc 3
code Errno.eio = negsuc 4
code Errno.enxio = negsuc 5
code Errno.e2big = negsuc 6
code Errno.enoexec = negsuc 7
code Errno.ebadf = negsuc 8
code Errno.echild = negsuc 9
code Errno.eagain = negsuc 10
code Errno.enomem = negsuc 11
code Errno.eacces = negsuc 12
code Errno.efault = negsuc 13
code Errno.ebusy = negsuc 15
code Errno.eexist = negsuc 16
code Errno.exdev = negsuc 17
code Errno.enodev = negsuc 18
code Errno.enotdir = negsuc 19
code Errno.eisdir = negsuc 20
code Errno.einval = negsuc 21
code Errno.enfile = negsuc 22
code Errno.emfile = negsuc 23
code Errno.enotty = negsuc 24
code Errno.efbig = negsuc 26
code Errno.enospc = negsuc 27
code Errno.espipe = negsuc 28
code Errno.erofs = negsuc 29
code Errno.emlink = negsuc 30
code Errno.epipe = negsuc 31
code Errno.edom = negsuc 32
code Errno.erange = negsuc 33
code Errno.enosys = negsuc 37
code Errno.eproto = negsuc 70
code Errno.ebadmsg = negsuc 73
code Errno.eoverflow = negsuc 74
code Errno.emsgsize = negsuc 89
code Errno.enotsup = negsuc 94
code Errno.eilseq = negsuc 83
code Errno.eaddrinuse = negsuc 97
code Errno.eaddrnotavail = negsuc 98
code Errno.enetdown = negsuc 99
code Errno.enetunreach = negsuc 100
code Errno.enetreset = negsuc 101
code Errno.econnaborted = negsuc 102
code Errno.econnreset = negsuc 103
code Errno.enobufs = negsuc 104
code Errno.eisconn = negsuc 105
code Errno.enotconn = negsuc 106
code Errno.eshutdown = negsuc 107
code Errno.etoomanyrefs = negsuc 108
code Errno.etimedout = negsuc 109
code Errno.econnrefused = negsuc 110
code Errno.ehostdown = negsuc 111
code Errno.ehostunreach = negsuc 112
code Errno.ealready = negsuc 113
code Errno.einprogress = negsuc 114
code Errno.ecanceled = negsuc 124
code Errno.enotrecoverable = negsuc 130

-- The cases of `errno_of` below 0, in its order: the absolute value less one, and the member.
abbrev negative_cases : List (ℕ × Errno)
negative_cases =
    (0, Errno.eperm)
    ∷ (1, Errno.enoent)
    ∷ (2, Errno.esrch)
    ∷ (3, Errno.eintr)
    ∷ (4, Errno.eio)
    ∷ (5, Errno.enxio)
    ∷ (6, Errno.e2big)
    ∷ (7, Errno.enoexec)
    ∷ (8, Errno.ebadf)
    ∷ (9, Errno.echild)
    ∷ (10, Errno.eagain)
    ∷ (11, Errno.enomem)
    ∷ (12, Errno.eacces)
    ∷ (13, Errno.efault)
    ∷ (15, Errno.ebusy)
    ∷ (16, Errno.eexist)
    ∷ (17, Errno.exdev)
    ∷ (18, Errno.enodev)
    ∷ (19, Errno.enotdir)
    ∷ (20, Errno.eisdir)
    ∷ (21, Errno.einval)
    ∷ (22, Errno.enfile)
    ∷ (23, Errno.emfile)
    ∷ (24, Errno.enotty)
    ∷ (26, Errno.efbig)
    ∷ (27, Errno.enospc)
    ∷ (28, Errno.espipe)
    ∷ (29, Errno.erofs)
    ∷ (30, Errno.emlink)
    ∷ (31, Errno.epipe)
    ∷ (32, Errno.edom)
    ∷ (33, Errno.erange)
    ∷ (37, Errno.enosys)
    ∷ (70, Errno.eproto)
    ∷ (73, Errno.ebadmsg)
    ∷ (74, Errno.eoverflow)
    ∷ (89, Errno.emsgsize)
    ∷ (94, Errno.enotsup)
    ∷ (83, Errno.eilseq)
    ∷ (97, Errno.eaddrinuse)
    ∷ (98, Errno.eaddrnotavail)
    ∷ (99, Errno.enetdown)
    ∷ (100, Errno.enetunreach)
    ∷ (101, Errno.enetreset)
    ∷ (102, Errno.econnaborted)
    ∷ (103, Errno.econnreset)
    ∷ (104, Errno.enobufs)
    ∷ (105, Errno.eisconn)
    ∷ (106, Errno.enotconn)
    ∷ (107, Errno.eshutdown)
    ∷ (108, Errno.etoomanyrefs)
    ∷ (109, Errno.etimedout)
    ∷ (110, Errno.econnrefused)
    ∷ (111, Errno.ehostdown)
    ∷ (112, Errno.ehostunreach)
    ∷ (113, Errno.ealready)
    ∷ (114, Errno.einprogress)
    ∷ (124, Errno.ecanceled)
    ∷ (130, Errno.enotrecoverable)
    ∷ []

-- The members' numbers, and the numbers that the cases say.
abbrev said : List (ℕ × Errno) → List ℤ
said [] = []
said (c ∷ cs) = code c.1 ∷ said cs

abbrev cased : List (ℕ × Errno) → List ℤ
cased [] = []
cased (c ∷ cs) = negsuc c.0 ∷ cased cs

abbrev first : List ℤ → ℤ
first [] = pos 0
first (c ∷ cs) = c

abbrev others : List ℤ → List ℤ
others [] = []
others (c ∷ cs) = cs

each_said : (cs : List (ℕ × Errno)) → said cs ≡ cased cs → All (λ c. code c.1 ≡ negsuc c.0) cs
each_said [] h = tt
each_said (c ∷ cs) h = (ap first h, each_said cs (ap others h))

negative_cases-code : All (λ c. code c.1 ≡ negsuc c.0) negative_cases
unfolding code
negative_cases-code = each_said negative_cases refl

pick : ℕ → List (ℕ × Errno) → Option Errno
pick n [] = none
pick n ((c, e) ∷ rest) = if n == c then some e else pick n rest

pub errno_of : ℤ → Option Errno
unfolding pick
errno_of (pos n) = if n == 0 then some Errno.ok else none
errno_of (negsuc n) = pick n negative_cases

pick_sound :
    (n : ℕ) (e : Errno) (cs : List (ℕ × Errno))
    → All (λ c. code c.1 ≡ negsuc c.0) cs
    → pick n cs ≡ some e
    → code e ≡ negsuc n
unfolding pick
pick_sound n e [] a h = cc
pick_sound n e ((c, f) ∷ cs) (here, rest) h = elim (Bool-cases (n == c)) [
  | inl hit ↦
      let same : f ≡ e = some_inj (rw hit at h) in
      rw (← same, here) (ap negsuc (sym ((==_iff n c).0 hit)))
  | inr miss ↦ pick_sound n e cs rest (rw miss at h)
]

errno_of-code_total : (e : Errno) → errno_of (code e) ≡ some e
unfolding errno_of code
errno_of-code_total Errno.ok = refl
errno_of-code_total _ = refl

code-errno_of : (c : ℤ) (e : Errno) → errno_of c ≡ some e → code e ≡ c
unfolding errno_of code
code-errno_of (pos n) e h = elim (Bool-cases (n == 0)) [
  | inl hit ↦
      let same : Errno.ok ≡ e = some_inj (rw hit at h) in
      rw (← same) (ap pos (sym ((==_iff n 0).0 hit)))
  | inr miss ↦ let never : none ≡ some e = rw miss at h in cc
]
code-errno_of (negsuc n) e h = pick_sound n e negative_cases negative_cases-code h

-- A number is read as a member exactly when it is that member's own: `errno_of` answers each
-- member for its number, and no member for a number that none has.
pub errno_of-code : (c : ℤ) (e : Errno) → (errno_of c ≡ some e) ↔ (code e ≡ c)
errno_of-code c e = (code-errno_of c e, λ h. rw (← h) (errno_of-code_total e))
