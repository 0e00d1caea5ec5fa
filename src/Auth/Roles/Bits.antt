-- ===== src/Auth/Roles/Bits.antt =====
-- Roles as sets of flags.
use Prim.Native.Nat.{bit_or}
use dozzle_gaia_fork.Common.{◌≡◌, refl, Bool, true, false, ℕ}
use dozzle_gaia_fork.Auth.Roles.{shell, actions, download, has}

pub data Flag : Type 0 where
  may_shell may_act may_download : Flag

abbrev pub role_of : Flag → ℕ
role_of may_shell = shell
role_of may_act = actions
role_of may_download = download

-- A set of bits by its members.
abbrev pub set : Bool → Bool → Bool → ℕ
set false false false = 0
set true false false = 2
set false true false = 4
set true true false = 6
set false false true = 8
set true false true = 10
set false true true = 12
set true true true = 14

abbrev pub member : Flag → Bool → Bool → Bool → Bool
member may_shell a b c = a
member may_act a b c = b
member may_download a b c = c

pub has-set : (f : Flag) (a b c : Bool) → has (set a b c) (role_of f) ≡ member f a b c
unfolding has
has-set may_shell false false false = refl
has-set may_shell false false true = refl
has-set may_shell false true false = refl
has-set may_shell false true true = refl
has-set may_shell true false false = refl
has-set may_shell true false true = refl
has-set may_shell true true false = refl
has-set may_shell true true true = refl
has-set may_act false false false = refl
has-set may_act false false true = refl
has-set may_act false true false = refl
has-set may_act false true true = refl
has-set may_act true false false = refl
has-set may_act true false true = refl
has-set may_act true true false = refl
has-set may_act true true true = refl
has-set may_download false false false = refl
has-set may_download false false true = refl
has-set may_download false true false = refl
has-set may_download false true true = refl
has-set may_download true false false = refl
has-set may_download true false true = refl
has-set may_download true true false = refl
has-set may_download true true true = refl

pub or_shell : (a b c : Bool) → bit_or (set a b c) shell ≡ set true b c
or_shell false false false = refl
or_shell false false true = refl
or_shell false true false = refl
or_shell false true true = refl
or_shell true false false = refl
or_shell true false true = refl
or_shell true true false = refl
or_shell true true true = refl

pub or_actions : (a b c : Bool) → bit_or (set a b c) actions ≡ set a true c
or_actions false false false = refl
or_actions false false true = refl
or_actions false true false = refl
or_actions false true true = refl
or_actions true false false = refl
or_actions true false true = refl
or_actions true true false = refl
or_actions true true true = refl

pub or_download : (a b c : Bool) → bit_or (set a b c) download ≡ set a b true
or_download false false false = refl
or_download false false true = refl
or_download false true false = refl
or_download false true true = refl
or_download true false false = refl
or_download true false true = refl
or_download true true false = refl
or_download true true true = refl
