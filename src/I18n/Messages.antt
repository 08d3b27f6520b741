-- ===== src/I18n/Messages.antt =====
-- web/src/lib/i18n/messages.ts: the dictionaries of the three languages.
mod English
mod Chinese
mod Japanese
unfoldable pub use English.{en_entries}
unfoldable pub use Chinese.{zh_tw_entries}
unfoldable pub use Japanese.{ja_jp_entries}
