-- ===== src/Join/TempFiles.antt =====
-- InstallAgent leaves no temporary file behind.
use ldndrc.Base.{◌≡◌, none, some, String, Bool, false, not, ◌&&◌, ◌||◌, List, ok, err, str_eq}
use ldndrc.Join.Install.{Machine}

-- `holds` tells which of the names that os.CreateTemp draws for k3s-install-*.sh are files:
-- CreateTemp makes one that was not there, or none, Remove removes it or fails, and neither the other calls
-- nor the K3s installer itself make or remove one.
pub record KeepsFiles {W : Type 0} (m : Machine W) (holds : W → String → Bool) : Type 0 where
  pub downloads : (u : String) (w : W) (n : String) → holds (m.download u w).1 n ≡ holds w n
  pub refuses :
      (p : String) (w : W) (e n : String)
      → (m.create_temp p w).0 ≡ err e
      → holds (m.create_temp p w).1 n ≡ holds w n
  pub was_free :
      (p : String) (w : W) (t : String) → (m.create_temp p w).0 ≡ ok t → holds w t ≡ false
  pub adds :
      (p : String) (w : W) (t n : String)
      → (m.create_temp p w).0 ≡ ok t
      → holds (m.create_temp p w).1 n ≡ (str_eq t n || holds w n)
  pub copies : (b t : String) (w : W) (n : String) → holds (m.copy b t w).1 n ≡ holds w n
  pub closes : (t : String) (w : W) (n : String) → holds (m.close t w).1 n ≡ holds w n
  pub runs : (cmd env : List String) (w : W) (n : String) → holds (m.run cmd env w).1 n ≡ holds w n
  pub removes :
      (t : String) (w : W) (n : String)
      → (m.remove t w).0 ≡ none
      → holds (m.remove t w).1 n ≡ (not (str_eq t n) && holds w n)
  pub stays :
      (t : String) (w : W) (e n : String)
      → (m.remove t w).0 ≡ some e
      → holds (m.remove t w).1 n ≡ holds w n

-- The name was drawn by os.CreateTemp when it was no file, and os.Remove has failed on it.
pub record Unremoved {W : Type 0} (m : Machine W) (holds : W → String → Bool) (w : W) (n : String)
    : Type 0 where
  pub before : W
  pub after : W
  pub message : String
  pub drawn : (m.create_temp "k3s-install-*.sh" before).0 ≡ ok n
  pub new : holds w n ≡ false
  pub failed : (m.remove n after).0 ≡ some message
