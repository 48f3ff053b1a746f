-- ===== src/Example/Heaped.antt =====
-- The example's map of peers is well-formed.
use selfremote.Common.{refl, arith}
use selfremote.Example.{blank}
use selfremote.Registry.Rows.{IsHeaped}

pub blank-IsHeaped : IsHeaped blank
blank-IsHeaped = record {
  below = (omega arith, (omega arith, tt));
  unique = (((refl, λ e. omega (arith, e)), tt), (tt, tt));
}
