-- ===== src/PasswordSecurity/Methods.antt =====
-- The verification methods of password_security.rs.
use pc_trade.Prelude.{
  ◌≡◌, ◌≢◌, refl, List, ℕ, Bool, true, false, arith, not, ◌==◌, ◌&&◌, ◌||◌, length,
}
use pc_trade.PasswordSecurity.{
  VerificationMethod, only_use_temporary_password, only_use_permanent_password, use_both_passwords,
  Options, method_of, temporary_enabled, permanent_enabled, has_valid_password, is_permanent_only,
  is_temporary_only, hide_cm, mode_of, is_password, allows,
}

-- Whatever the option says, one of the two kinds of passwords is enabled.
one_enabled :
    (m : VerificationMethod) → (not (is_permanent_only m) || not (is_temporary_only m)) ≡ true
one_enabled only_use_temporary_password = refl
one_enabled only_use_permanent_password = refl
one_enabled use_both_passwords = refl

valid :
    (m : VerificationMethod) (a b : Bool)
    → a ≡ false
    → b ≡ false
    → ((not (is_permanent_only m) && not a) || (not (is_temporary_only m) && not b)) ≡ true
valid m false false ea eb = one_enabled_and m
  where
    one_enabled_and :
        (m : VerificationMethod)
        → ((not (is_permanent_only m) && true) || (not (is_temporary_only m) && true)) ≡ true
    one_enabled_and only_use_temporary_password = refl
    one_enabled_and only_use_permanent_password = refl
    one_enabled_and use_both_passwords = refl
valid m true b ea eb = cc
valid m false true ea eb = cc

hidden :
    (m : VerificationMethod) (x y : Bool)
    → (x && is_permanent_only m && y) ≡ true
    → not (is_permanent_only m) ≡ false
hidden only_use_permanent_password x y e = refl
hidden only_use_temporary_password x y e = ground arith
hidden use_both_passwords x y e = ground arith

unset : (n : ℕ) → n ≢ 0 → (n == 0) ≡ false
unset n ne = ground arith

-- Whatever the options say, temporary or permanent passwords are enabled; where both passwords are
-- set there is a valid one; and the connection manager is hidden only where temporary passwords are
-- off.
pub methods_lem :
    (o : Options) (temporary : List ℕ)
    → ((temporary_enabled o || permanent_enabled o) ≡ true)
      × (length temporary ≢ 0
          → length o.permanent_password ≢ 0
          → has_valid_password o temporary ≡ true)
      × (hide_cm o ≡ true → temporary_enabled o ≡ false)
unfolding temporary_enabled permanent_enabled has_valid_password hide_cm
methods_lem o temporary = (
  one_enabled (method_of o),
  (λ t p. valid (method_of o) _ _ (unset _ t) (unset _ p)),
  λ h. hidden (method_of o) (is_password (mode_of o)) (allows o.allow_hide_cm) h,
)
