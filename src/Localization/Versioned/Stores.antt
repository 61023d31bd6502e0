-- ===== src/Localization/Versioned/Stores.antt =====
-- The four tables of resources.
use voice_verse_ai.Localization.Types.{Store}
use voice_verse_ai.Localization.Versioned.{AreVersioned}

-- In every table the keys are apart, the revisions of a resource are numbered upwards from 1 on, and its
-- selection is one of them.
pub record AreAllVersioned (store : Store) : Type 0 where
  pub scenes : AreVersioned store.scenes
  pub dialogues : AreVersioned store.dialogues
  pub translations : AreVersioned store.translations
  pub glossary : AreVersioned store.glossary
