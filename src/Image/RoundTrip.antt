-- ===== src/Image/RoundTrip.antt =====
-- An image reference, written out and parsed again.
use freshdock.Prelude.{◌≡◌, false, Text}
use freshdock.Prelude.Split.{contains}

-- A tag has neither a colon nor a slash.
IsTag : Text → Type 0
IsTag t = (contains b':' t ≡ false) × (contains b'/' t ≡ false)
