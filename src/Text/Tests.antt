-- ===== src/Text/Tests.antt =====
-- Numbers as texts.
use spraybus.Prelude.{◌≡◌, refl}
use spraybus.Text.{text, to_string}

largest : to_string 18446744073709551615 ≡ text "18446744073709551615"
unfolding to_string
largest = refl
