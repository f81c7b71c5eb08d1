-- ===== src/MuteDeaf/Exchange.antt =====
-- What one client tells arrives at the others.
use fubble.Base.{Bool, Option, none, some}

abbrev pub given : Option Bool → Bool → Bool
given none old = old
given (some b) old = b
