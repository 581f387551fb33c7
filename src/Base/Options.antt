-- ===== src/Base/Options.antt =====
-- What equations between options say.
use mathlib.Core.Path.{◌≡◌}
use mathlib.Core.Option.{Option, none, some}

pub some-injective : {A : Type 0} {a b : A} → some a ≡ some b → a ≡ b
some-injective h = cc

pub none_ne_some : {C A : Type 0} {a : A} {o : Option A} → o ≡ none → o ≡ some a → C
none_ne_some h k = cc
