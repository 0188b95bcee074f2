-- ===== src/Utils/Tests.antt =====
-- The string helpers on short texts.
use anysphere_messaging.Common.{◌≡◌, refl, [], ◌∷◌, join, text}
use anysphere_messaging.Utils.{take, truncate, class_names, decimal}

truncate_test : truncate (text "hello world") 8 ≡ text "hello..."
unfolding truncate take text
truncate_test = refl

class_names_test : class_names (text "a" ∷ [] ∷ text "b" ∷ []) ≡ text "a b"
unfolding class_names join
class_names_test = refl

decimal_test : decimal 1905 ≡ text "1905"
unfolding decimal text
decimal_test = refl
