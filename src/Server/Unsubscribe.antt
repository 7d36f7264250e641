-- ===== src/Server/Unsubscribe.antt =====
-- The unsubscribe command behind a subscribe command, and the tail that it leaves dangling.
use client_server_protocoale.Common.{◌≡◌, Bool, true, false, List, [], ◌∷◌}
use client_server_protocoale.LinkedList.View.{View}
use client_server_protocoale.Server.State.{TopicStructure}

abbrev pub NoneIs : (TopicStructure → Bool) → List TopicStructure → Type 0
NoneIs p [] = Unit {0}
NoneIs p (t ∷ ts) = (p t ≡ false) × NoneIs p ts

-- Whether there is an item.
abbrev pub occupied : List TopicStructure → Bool
occupied [] = false
occupied (t ∷ ts) = true
