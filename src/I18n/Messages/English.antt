-- ===== src/I18n/Messages/English.antt =====
-- web/src/lib/i18n/messages.ts: the English dictionary, whose keys are the `MessageKey`s.
use haste_server.Prelude.{String, List, [], ◌∷◌}

unfoldable pub en_entries : List (String × String)
en_entries =
    ("nav.github", "{org} on GitHub")
    ∷ ("nav.theme", "Change theme")
    ∷ ("nav.language", "Language")
    ∷ ("nav.docs", "API reference")
    ∷ ("theme.light", "Light")
    ∷ ("theme.dark", "Dark")
    ∷ ("theme.system", "System")
    ∷ ("locale.auto", "Automatic")
    ∷ ("locale.autoHint", "Follow the browser")
    ∷ ("editor.aria", "Paste content")
    ∷ ("editor.tagline", "Paste code or logs. Get a short link back.")
    ∷ ("editor.hint.type", "Start typing")
    ∷ ("editor.hint.drop", "Drop a file")
    ∷ ("editor.hint.save", "to save")
    ∷ ("editor.hint.limit", "Up to {max} characters, highlighted as you type")
    ∷ ("editor.dropzone", "Drop a file to load it")
    ∷ ("editor.save", "Save")
    ∷ ("editor.overLimit", "Over the {max} character limit")
    ∷ ("editor.fileTooBig", "File is over the limit")
    ∷ ("editor.fileTooBigBody", "Trim it to {max} characters before saving.")
    ∷ ("editor.saveFailed", "Could not save paste")
    ∷ ("editor.saveFailedBody", "Something went wrong while saving.")
    ∷ ("editor.noExpiry", "Saved without an expiry")
    ∷ (
      "editor.noExpiryBody",
      "No deletion time was set. That is not a promise to keep it: pastes are removed when the server needs the space.",
    )
    ∷ ("save.title", "Save this paste")
    ∷ ("save.description", "Check what is about to be shared.")
    ∷ (
      "save.noDelete",
      "Once saved it cannot be edited, and you cannot delete it. Giving it a lifetime is the only way to make it go away.",
    )
    ∷ ("save.titleLabel", "Title")
    ∷ ("save.titleOptional", "optional")
    ∷ ("save.titlePlaceholder", "Enter a title…")
    ∷ ("save.titleTooLong", "At most {max} characters.")
    ∷ ("save.language", "Language")
    ∷ ("save.expiry", "Deleted after")
    ∷ ("save.cancel", "Cancel")
    ∷ ("save.confirm", "Save")
    ∷ ("save.close", "Close")
    ∷ ("lang.aria", "Syntax highlighting")
    ∷ ("lang.auto", "Auto")
    ∷ ("lang.search", "Search languages…")
    ∷ ("lang.empty", "No language found.")
    ∷ ("lang.plain", "Plain text")
    ∷ ("expiry.aria", "Expires: {value}")
    ∷ ("expiry.none", "No expiry")
    ∷ ("expiry.noneHint", "No timed deletion")
    ∷ ("expiry.afterHint", "Deleted after {value}")
    ∷ (
      "expiry.note",
      "Links die on time. Erasing the data waits for the next cleanup, up to {interval} later.",
    )
    ∷ ("unit.second.one", "second")
    ∷ ("unit.second.other", "seconds")
    ∷ ("unit.minute.one", "minute")
    ∷ ("unit.minute.other", "minutes")
    ∷ ("unit.hour.one", "hour")
    ∷ ("unit.hour.other", "hours")
    ∷ ("unit.day.one", "day")
    ∷ ("unit.day.other", "days")
    ∷ ("unit.short.second", "s")
    ∷ ("unit.short.minute", "m")
    ∷ ("unit.short.hour", "h")
    ∷ ("unit.short.day", "d")
    ∷ ("paste.copyLink", "Copy link")
    ∷ ("paste.copyContent", "Copy content")
    ∷ ("paste.viewRaw", "View raw")
    ∷ ("paste.download", "Download")
    ∷ ("paste.downloadNamed", "Download {name}")
    ∷ ("paste.new", "New paste")
    ∷ ("paste.more", "More actions")
    ∷ ("paste.linkCopied", "Link copied")
    ∷ ("paste.linesCopied", "Link to lines copied")
    ∷ ("paste.linkCopyFailed", "Could not copy link")
    ∷ ("paste.contentCopied", "Content copied")
    ∷ ("paste.contentCopyFailed", "Could not copy content")
    ∷ ("paste.loading", "Loading…")
    ∷ ("paste.chars", "{count} chars")
    ∷ ("paste.line", "Line {n}")
    ∷ ("paste.savedAt", "Saved")
    ∷ ("paste.expiresAt", "Expires")
    ∷ ("paste.left", "{value} left")
    ∷ ("paste.expired", "Expired")
    ∷ ("paste.expiryDetail", "Erasing the data waits for the next cleanup, up to {interval} later.")
    ∷ ("paste.timeZone", "Times are UTC+8.")
    ∷ ("nf.reasons", "Two things this usually means")
    ∷ ("nf.temporary", "It was temporary")
    ∷ (
      "nf.temporaryBody",
      "The paste was saved with a deletion time that has since passed. Ask whoever shared it to post it again.",
    )
    ∷ ("nf.reclaimed", "It was reclaimed")
    ∷ (
      "nf.reclaimedBody",
      "A paste with no deletion time is still not permanent — the least recently opened ones go first when the server runs low on space.",
    )
    ∷ (
      "nf.notAPaste",
      "That address does not name a paste. Share links are a single code, like /k7Qm2Xp9.",
    )
    ∷ ("nf.loadFailed", "The paste could not be loaded. It may be worth trying again in a moment.")
    ∷ ("nf.retry", "Try again")
    ∷ ("nf.noPaste", "no paste with that code")
    ∷ ("nf.noPage", "no such page")
    ∷ ("err.network", "Could not reach the server.")
    ∷ ("err.not_found", "No paste with that code.")
    ∷ ("err.empty", "The paste is empty.")
    ∷ ("err.too_large", "The paste is over the character limit.")
    ∷ ("err.bad_expiry", "That is not one of the lifetimes this server accepts.")
    ∷ ("err.bad_title", "That title cannot be used.")
    ∷ ("err.rate_limited", "Too many pastes at once. Try again in a moment.")
    ∷ ("err.busy", "The server is saving too many pastes right now. Try again shortly.")
    ∷ ("err.no_room", "The paste is larger than the server's entire storage cap.")
    ∷ ("docs.title", "API")
    ∷ ("docs.subtitle", "Everything the server answers, and what it answers with.")
    ∷ ("docs.baseUrl", "Base URL")
    ∷ ("docs.copied", "Copied")
    ∷ ("docs.parameters", "Parameters")
    ∷ ("docs.requestBody", "Request body")
    ∷ ("docs.responses", "Responses")
    ∷ ("docs.example", "Example")
    ∷ ("docs.tryIt", "Try it")
    ∷ ("docs.send", "Send")
    ∷ ("docs.sending", "Sending…")
    ∷ ("docs.response", "Response")
    ∷ ("docs.noParameters", "None.")
    ∷ ("docs.required", "required")
    ∷ ("docs.optional", "optional")
    ∷ ("docs.back", "Back to the editor")
    ∷ (
      "docs.errorShape",
      "Every failure answers with the same shape: a stable `error` code and a `message` written for a person.",
    )
    ∷ ("docs.create.summary", "Create a paste")
    ∷ (
      "docs.create.body",
      "A JSON envelope. A body sent as anything other than JSON is taken as the paste itself — what `curl --data-binary @file` sends — and carries no settings; the envelope is the only place those are read from.",
    )
    ∷ ("docs.read.summary", "Read a paste as JSON")
    ∷ ("docs.raw.summary", "Read a paste as plain text")
    ∷ ("docs.download.summary", "Download a paste as a file")
    ∷ ("docs.download.body", "Named after the code, with the extension its language implies.")
    ∷ ("docs.config.summary", "Limits this server applies")
    ∷ (
      "docs.config.body",
      "The character limit and the lifetime ladder, so a client enforces the same rules the server does instead of keeping a copy that drifts.",
    )
    ∷ ("docs.stats.summary", "How much is stored, and how well it compressed")
    ∷ ("docs.health.summary", "Liveness check")
    ∷ ("docs.legacyCreate.summary", "Create, in the original haste-server protocol")
    ∷ ("docs.legacyRead.summary", "Read, in the original haste-server protocol")
    ∷ ("docs.legacy.body", "Kept so existing CLI wrappers work unchanged.")
    ∷ ("docs.p.code", "The share code, as returned by a create.")
    ∷ ("docs.p.content", "The paste itself.")
    ∷ (
      "docs.p.title",
      "An optional name, at most {max} characters. Replaces the generated summary in the link preview.",
    )
    ∷ ("docs.p.language", "Highlighting hint. Omitted or unknown means it is detected on read.")
    ∷ (
      "docs.p.expiresIn",
      "Seconds until deletion. 0 or absent means no deletion time. Only the values published by /api/config are accepted.",
    )
    ∷ ("docs.r.201", "Created. The body is the paste, including its content.")
    ∷ ("docs.r.200", "The paste.")
    ∷ ("docs.r.200config", "The limits.")
    ∷ ("docs.r.200stats", "The corpus summary.")
    ∷ ("docs.r.200ok", "Alive.")
    ∷ ("docs.r.200raw", "The content, as text/plain.")
    ∷ ("docs.r.200download", "The content, as an attachment.")
    ∷ ("docs.r.400", "Empty, malformed, or an unsupported lifetime.")
    ∷ ("docs.r.404", "No paste with that code, or it is gone.")
    ∷ ("docs.r.413", "Over the character limit.")
    ∷ ("docs.r.429", "Rate limited.")
    ∷ ("docs.r.503", "The write queue is full.")
    ∷ []
