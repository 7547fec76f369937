-- ===== src/Status/Codes/Tests.antt =====
-- Runs and witnesses of the error codes.
use xpute.Common.{◌≡◌, refl, none, some}
use xpute.Common.Int.{negsuc}
use xpute.Status.{Errno}
use xpute.Status.Codes.{errno_of}

no_such : errno_of (negsuc 300) ≡ none
unfolding errno_of
no_such = refl

eperm_read : errno_of (negsuc 0) ≡ some Errno.eperm
unfolding errno_of
eperm_read = refl
