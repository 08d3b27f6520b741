-- ===== src/I18n/Messages/Chinese.antt =====
-- web/src/lib/i18n/messages.ts: the Traditional Chinese dictionary.
use haste_server.Prelude.{String, List, [], ◌∷◌}

unfoldable pub zh_tw_entries : List (String × String)
zh_tw_entries =
    ("nav.github", "{org} 的 GitHub")
    ∷ ("nav.theme", "切換佈景")
    ∷ ("nav.language", "語言")
    ∷ ("nav.docs", "API 文件")
    ∷ ("theme.light", "淺色")
    ∷ ("theme.dark", "深色")
    ∷ ("theme.system", "跟隨系統")
    ∷ ("locale.auto", "自動")
    ∷ ("locale.autoHint", "跟隨瀏覽器")
    ∷ ("editor.aria", "貼上內容")
    ∷ ("editor.tagline", "貼上程式碼或 log，拿到一個短連結。")
    ∷ ("editor.hint.type", "直接開始輸入")
    ∷ ("editor.hint.drop", "拖放檔案")
    ∷ ("editor.hint.save", "儲存")
    ∷ ("editor.hint.limit", "上限 {max} 字元，邊打邊上色")
    ∷ ("editor.dropzone", "放開以載入檔案")
    ∷ ("editor.save", "儲存")
    ∷ ("editor.overLimit", "超過 {max} 字元上限")
    ∷ ("editor.fileTooBig", "檔案超過上限")
    ∷ ("editor.fileTooBigBody", "請先刪減到 {max} 字元以內再儲存。")
    ∷ ("editor.saveFailed", "無法儲存")
    ∷ ("editor.saveFailedBody", "儲存時發生了未預期的錯誤。")
    ∷ ("editor.noExpiry", "已儲存，未設定期限")
    ∷ ("editor.noExpiryBody", "沒有設定刪除時間。這不是承諾保留：空間不足時貼文仍會被清除。")
    ∷ ("save.title", "儲存這則貼文")
    ∷ ("save.description", "確認即將分享的內容。")
    ∷ ("save.noDelete", "儲存後不能修改，你也無法自己刪除 —— 想讓它消失，只能現在設一個期限。")
    ∷ ("save.titleLabel", "標題")
    ∷ ("save.titleOptional", "選填")
    ∷ ("save.titlePlaceholder", "請輸入標題…")
    ∷ ("save.titleTooLong", "最多 {max} 個字。")
    ∷ ("save.language", "語言")
    ∷ ("save.expiry", "多久後刪除")
    ∷ ("save.cancel", "取消")
    ∷ ("save.confirm", "儲存")
    ∷ ("save.close", "關閉")
    ∷ ("lang.aria", "語法上色")
    ∷ ("lang.auto", "自動")
    ∷ ("lang.search", "搜尋語言…")
    ∷ ("lang.empty", "找不到符合的語言。")
    ∷ ("lang.plain", "純文字")
    ∷ ("expiry.aria", "期限：{value}")
    ∷ ("expiry.none", "不限制")
    ∷ ("expiry.noneHint", "不設定刪除時間")
    ∷ ("expiry.afterHint", "{value} 後刪除")
    ∷ ("expiry.note", "連結會準時失效。實際清除要等下一次清理，最多晚 {interval}。")
    ∷ ("unit.second.one", "秒")
    ∷ ("unit.second.other", "秒")
    ∷ ("unit.minute.one", "分鐘")
    ∷ ("unit.minute.other", "分鐘")
    ∷ ("unit.hour.one", "小時")
    ∷ ("unit.hour.other", "小時")
    ∷ ("unit.day.one", "天")
    ∷ ("unit.day.other", "天")
    ∷ ("unit.short.second", "秒")
    ∷ ("unit.short.minute", "分")
    ∷ ("unit.short.hour", "小時")
    ∷ ("unit.short.day", "天")
    ∷ ("paste.copyLink", "複製連結")
    ∷ ("paste.copyContent", "複製內容")
    ∷ ("paste.viewRaw", "檢視原始內容")
    ∷ ("paste.download", "下載")
    ∷ ("paste.downloadNamed", "下載 {name}")
    ∷ ("paste.new", "開新的")
    ∷ ("paste.more", "更多操作")
    ∷ ("paste.linkCopied", "已複製連結")
    ∷ ("paste.linesCopied", "已複製指向這幾行的連結")
    ∷ ("paste.linkCopyFailed", "無法複製連結")
    ∷ ("paste.contentCopied", "已複製內容")
    ∷ ("paste.contentCopyFailed", "無法複製內容")
    ∷ ("paste.loading", "載入中…")
    ∷ ("paste.chars", "{count} 字元")
    ∷ ("paste.line", "第 {n} 行")
    ∷ ("paste.savedAt", "儲存於")
    ∷ ("paste.expiresAt", "失效於")
    ∷ ("paste.left", "剩 {value}")
    ∷ ("paste.expired", "已失效")
    ∷ ("paste.expiryDetail", "實際清除要等下一次清理，最多晚 {interval}。")
    ∷ ("paste.timeZone", "時間為 UTC+8。")
    ∷ ("nf.reasons", "通常是這兩種情況")
    ∷ ("nf.temporary", "它是臨時的")
    ∷ ("nf.temporaryBody", "這則貼文儲存時設了刪除時間，而那個時間已經過了。請分享的人重貼一次。")
    ∷ ("nf.reclaimed", "它被回收了")
    ∷ ("nf.reclaimedBody", "沒有設刪除時間不等於永久保存 —— 空間不足時，最久沒被開啟的會先被清掉。")
    ∷ ("nf.notAPaste", "這個網址不是一則貼文。分享連結只有一段代碼，像 /k7Qm2Xp9。")
    ∷ ("nf.loadFailed", "無法載入這則貼文，稍後再試一次也許就好了。")
    ∷ ("nf.retry", "重試")
    ∷ ("nf.noPaste", "no paste with that code")
    ∷ ("nf.noPage", "no such page")
    ∷ ("err.network", "連不上伺服器。")
    ∷ ("err.not_found", "找不到這個代碼的貼文。")
    ∷ ("err.empty", "內容是空的。")
    ∷ ("err.too_large", "超過字元上限。")
    ∷ ("err.bad_expiry", "這不是伺服器接受的期限之一。")
    ∷ ("err.bad_title", "這個標題不能使用。")
    ∷ ("err.rate_limited", "短時間內送出太多次，請稍候再試。")
    ∷ ("err.busy", "伺服器正在處理太多寫入，請稍候再試。")
    ∷ ("err.no_room", "這則貼文比伺服器的整個空間上限還大。")
    ∷ ("docs.title", "API")
    ∷ ("docs.subtitle", "伺服器提供的所有端點，以及它們的回應。")
    ∷ ("docs.baseUrl", "Base URL")
    ∷ ("docs.copied", "已複製")
    ∷ ("docs.parameters", "參數")
    ∷ ("docs.requestBody", "請求內容")
    ∷ ("docs.responses", "回應")
    ∷ ("docs.example", "範例")
    ∷ ("docs.tryIt", "試打")
    ∷ ("docs.send", "送出")
    ∷ ("docs.sending", "送出中…")
    ∷ ("docs.response", "回應")
    ∷ ("docs.noParameters", "無。")
    ∷ ("docs.required", "必填")
    ∷ ("docs.optional", "選填")
    ∷ ("docs.back", "回到編輯器")
    ∷ ("docs.errorShape", "所有錯誤都是同一個形狀：一個穩定的 `error` 代碼，加上一句寫給人看的 `message`。")
    ∷ ("docs.create.summary", "建立貼文")
    ∷ (
      "docs.create.body",
      "用 JSON 封裝。content type 不是 JSON 時，body 會整份當成貼文內容 —— 也就是 `curl --data-binary @file` 的行為 —— 且不帶任何設定；設定只從 JSON 封裝讀。",
    )
    ∷ ("docs.read.summary", "以 JSON 讀取貼文")
    ∷ ("docs.raw.summary", "以純文字讀取貼文")
    ∷ ("docs.download.summary", "下載成檔案")
    ∷ ("docs.download.body", "檔名為分享碼，副檔名由語言決定。")
    ∷ ("docs.config.summary", "這台伺服器實際套用的限制")
    ∷ ("docs.config.body", "字元上限與期限清單。客戶端照它套用同一套規則，而不是自己留一份會走鐘的副本。")
    ∷ ("docs.stats.summary", "存了多少、壓得多好")
    ∷ ("docs.health.summary", "存活檢查")
    ∷ ("docs.legacyCreate.summary", "建立（原版 haste-server 協定）")
    ∷ ("docs.legacyRead.summary", "讀取（原版 haste-server 協定）")
    ∷ ("docs.legacy.body", "保留這組端點，既有的 CLI 包裝工具不用改就能繼續用。")
    ∷ ("docs.p.code", "分享碼，由建立時回傳。")
    ∷ ("docs.p.content", "貼文內容本身。")
    ∷ ("docs.p.title", "選填的名稱，最多 {max} 個字。連結預覽會用它取代自動產生的摘要。")
    ∷ ("docs.p.language", "上色提示。省略或無法辨識時，讀取時再自動偵測。")
    ∷ ("docs.p.expiresIn", "幾秒後刪除。0 或省略代表不設刪除時間。只接受 /api/config 發布的那幾個值。")
    ∷ ("docs.r.201", "已建立，回應內容包含貼文本身。")
    ∷ ("docs.r.200", "貼文。")
    ∷ ("docs.r.200config", "各項限制。")
    ∷ ("docs.r.200stats", "整體統計。")
    ∷ ("docs.r.200ok", "存活中。")
    ∷ ("docs.r.200raw", "內容，以 text/plain 回傳。")
    ∷ ("docs.r.200download", "內容，以附件形式回傳。")
    ∷ ("docs.r.400", "內容為空、格式錯誤，或期限不在清單上。")
    ∷ ("docs.r.404", "找不到這個代碼，或它已經不在了。")
    ∷ ("docs.r.413", "超過字元上限。")
    ∷ ("docs.r.429", "觸發流量限制。")
    ∷ ("docs.r.503", "寫入佇列已滿。")
    ∷ []
