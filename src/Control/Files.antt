-- ===== src/Control/Files.antt =====
-- What is read from a file that was written, and from another.
use openhd_glide.Base.{◌≡◌, refl, true, false, some, Bytes, same_bytes, arith}
use openhd_glide.Base.Same.{same_bytes_refl}
use openhd_glide.Control.{FileSystem, write}

pub write-same :
    (f : FileSystem) (path text : Bytes)
    → f.can_write path ≡ true
    → (write f path text).contents path ≡ some text
unfolding write
write-same f path text h = rw h (rw (same_bytes_refl path) refl)

pub write-other :
    (f : FileSystem) (path other text : Bytes)
    → same_bytes other path ≡ false
    → (write f path text).contents other ≡ f.contents other
unfolding write
write-other f path other text h = ground (arith, h)

pub write-directory :
    (f : FileSystem) (path text : Bytes) → (write f path text).directory ≡ f.directory
unfolding write
write-directory f path text = ground arith
