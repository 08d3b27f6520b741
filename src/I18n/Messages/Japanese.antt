-- ===== src/I18n/Messages/Japanese.antt =====
-- web/src/lib/i18n/messages.ts: the Japanese dictionary.
use haste_server.Prelude.{String, List, [], ◌∷◌}

unfoldable pub ja_jp_entries : List (String × String)
ja_jp_entries =
    ("nav.github", "{org} の GitHub")
    ∷ ("nav.theme", "テーマを変更")
    ∷ ("nav.language", "言語")
    ∷ ("nav.docs", "API リファレンス")
    ∷ ("theme.light", "ライト")
    ∷ ("theme.dark", "ダーク")
    ∷ ("theme.system", "システムに合わせる")
    ∷ ("locale.auto", "自動")
    ∷ ("locale.autoHint", "ブラウザに合わせる")
    ∷ ("editor.aria", "貼り付ける内容")
    ∷ ("editor.tagline", "コードやログを貼り付けて、短いリンクを受け取る。")
    ∷ ("editor.hint.type", "そのまま入力")
    ∷ ("editor.hint.drop", "ファイルをドロップ")
    ∷ ("editor.hint.save", "で保存")
    ∷ ("editor.hint.limit", "最大 {max} 文字、入力しながらハイライト")
    ∷ ("editor.dropzone", "ドロップしてファイルを読み込む")
    ∷ ("editor.save", "保存")
    ∷ ("editor.overLimit", "{max} 文字の上限を超えています")
    ∷ ("editor.fileTooBig", "ファイルが上限を超えています")
    ∷ ("editor.fileTooBigBody", "保存する前に {max} 文字以内にしてください。")
    ∷ ("editor.saveFailed", "保存できませんでした")
    ∷ ("editor.saveFailedBody", "保存中に予期しないエラーが発生しました。")
    ∷ ("editor.noExpiry", "期限なしで保存しました")
    ∷ ("editor.noExpiryBody", "削除時刻は設定されていません。保存を約束するものではなく、容量が足りなくなればペーストは削除されます。")
    ∷ ("save.title", "このペーストを保存")
    ∷ ("save.description", "これから共有する内容を確認します。")
    ∷ ("save.noDelete", "保存後は編集できず、自分で削除することもできません。消えるようにする唯一の方法が、いま期限を設定することです。")
    ∷ ("save.titleLabel", "タイトル")
    ∷ ("save.titleOptional", "任意")
    ∷ ("save.titlePlaceholder", "タイトルを入力…")
    ∷ ("save.titleTooLong", "{max} 文字以内にしてください。")
    ∷ ("save.language", "言語")
    ∷ ("save.expiry", "削除まで")
    ∷ ("save.cancel", "キャンセル")
    ∷ ("save.confirm", "保存")
    ∷ ("save.close", "閉じる")
    ∷ ("lang.aria", "シンタックスハイライト")
    ∷ ("lang.auto", "自動")
    ∷ ("lang.search", "言語を検索…")
    ∷ ("lang.empty", "該当する言語がありません。")
    ∷ ("lang.plain", "プレーンテキスト")
    ∷ ("expiry.aria", "期限: {value}")
    ∷ ("expiry.none", "期限なし")
    ∷ ("expiry.noneHint", "時限削除なし")
    ∷ ("expiry.afterHint", "{value}後に削除")
    ∷ ("expiry.note", "リンクは時間どおりに無効になります。データの消去は次のクリーンアップまで、最大 {interval} 遅れます。")
    ∷ ("unit.second.one", "秒")
    ∷ ("unit.second.other", "秒")
    ∷ ("unit.minute.one", "分")
    ∷ ("unit.minute.other", "分")
    ∷ ("unit.hour.one", "時間")
    ∷ ("unit.hour.other", "時間")
    ∷ ("unit.day.one", "日")
    ∷ ("unit.day.other", "日")
    ∷ ("unit.short.second", "秒")
    ∷ ("unit.short.minute", "分")
    ∷ ("unit.short.hour", "時間")
    ∷ ("unit.short.day", "日")
    ∷ ("paste.copyLink", "リンクをコピー")
    ∷ ("paste.copyContent", "内容をコピー")
    ∷ ("paste.viewRaw", "元のテキストを表示")
    ∷ ("paste.download", "ダウンロード")
    ∷ ("paste.downloadNamed", "{name} をダウンロード")
    ∷ ("paste.new", "新規作成")
    ∷ ("paste.more", "その他の操作")
    ∷ ("paste.linkCopied", "リンクをコピーしました")
    ∷ ("paste.linesCopied", "行へのリンクをコピーしました")
    ∷ ("paste.linkCopyFailed", "リンクをコピーできませんでした")
    ∷ ("paste.contentCopied", "内容をコピーしました")
    ∷ ("paste.contentCopyFailed", "内容をコピーできませんでした")
    ∷ ("paste.loading", "読み込み中…")
    ∷ ("paste.chars", "{count} 文字")
    ∷ ("paste.line", "{n} 行目")
    ∷ ("paste.savedAt", "保存")
    ∷ ("paste.expiresAt", "期限")
    ∷ ("paste.left", "残り {value}")
    ∷ ("paste.expired", "期限切れ")
    ∷ ("paste.expiryDetail", "データの消去は次のクリーンアップまで、最大 {interval} 遅れます。")
    ∷ ("paste.timeZone", "時刻は UTC+8 です。")
    ∷ ("nf.reasons", "よくある原因は二つ")
    ∷ ("nf.temporary", "一時的なペーストだった")
    ∷ ("nf.temporaryBody", "削除時刻を設定して保存されており、その時刻をすでに過ぎています。共有した人にもう一度投稿してもらってください。")
    ∷ ("nf.reclaimed", "容量のために削除された")
    ∷ ("nf.reclaimedBody", "削除時刻を設定しなくても永久保存ではありません。容量が不足すると、最後に開かれてから最も時間が経ったものから消えます。")
    ∷ ("nf.notAPaste", "このアドレスはペーストではありません。共有リンクは /k7Qm2Xp9 のような一つのコードだけです。")
    ∷ ("nf.loadFailed", "ペーストを読み込めませんでした。少し待ってからもう一度お試しください。")
    ∷ ("nf.retry", "再試行")
    ∷ ("nf.noPaste", "no paste with that code")
    ∷ ("nf.noPage", "no such page")
    ∷ ("err.network", "サーバーに接続できません。")
    ∷ ("err.not_found", "そのコードのペーストはありません。")
    ∷ ("err.empty", "内容が空です。")
    ∷ ("err.too_large", "文字数の上限を超えています。")
    ∷ ("err.bad_expiry", "このサーバーが受け付ける期限ではありません。")
    ∷ ("err.bad_title", "このタイトルは使用できません。")
    ∷ ("err.rate_limited", "短時間に送りすぎです。少し待ってからお試しください。")
    ∷ ("err.busy", "サーバーの書き込みが混み合っています。少し待ってからお試しください。")
    ∷ ("err.no_room", "ペーストがサーバーの保存容量そのものより大きいです。")
    ∷ ("docs.title", "API")
    ∷ ("docs.subtitle", "サーバーが応答するすべてのエンドポイントと、その戻り値。")
    ∷ ("docs.baseUrl", "ベース URL")
    ∷ ("docs.copied", "コピーしました")
    ∷ ("docs.parameters", "パラメータ")
    ∷ ("docs.requestBody", "リクエストボディ")
    ∷ ("docs.responses", "レスポンス")
    ∷ ("docs.example", "例")
    ∷ ("docs.tryIt", "試す")
    ∷ ("docs.send", "送信")
    ∷ ("docs.sending", "送信中…")
    ∷ ("docs.response", "レスポンス")
    ∷ ("docs.noParameters", "なし。")
    ∷ ("docs.required", "必須")
    ∷ ("docs.optional", "任意")
    ∷ ("docs.back", "エディタに戻る")
    ∷ ("docs.errorShape", "エラーはすべて同じ形です。安定した `error` コードと、人が読むための `message`。")
    ∷ ("docs.create.summary", "ペーストを作成")
    ∷ (
      "docs.create.body",
      "JSON で包みます。content type が JSON 以外の場合、ボディはペースト本文として扱われ、設定は一切含みません。設定を読むのは JSON の封筒だけです。",
    )
    ∷ ("docs.read.summary", "ペーストを JSON で取得")
    ∷ ("docs.raw.summary", "ペーストをプレーンテキストで取得")
    ∷ ("docs.download.summary", "ファイルとしてダウンロード")
    ∷ ("docs.download.body", "ファイル名は共有コード、拡張子は言語から決まります。")
    ∷ ("docs.config.summary", "このサーバーが適用する制限")
    ∷ ("docs.config.body", "文字数の上限と期限の一覧。クライアントは自前の写しではなく、これを見てサーバーと同じ規則を適用します。")
    ∷ ("docs.stats.summary", "保存量と圧縮率")
    ∷ ("docs.health.summary", "死活監視")
    ∷ ("docs.legacyCreate.summary", "作成（オリジナルの haste-server 互換）")
    ∷ ("docs.legacyRead.summary", "取得（オリジナルの haste-server 互換）")
    ∷ ("docs.legacy.body", "既存の CLI ラッパーがそのまま動くように残してあります。")
    ∷ ("docs.p.code", "共有コード。作成時に返されます。")
    ∷ ("docs.p.content", "ペーストの内容そのもの。")
    ∷ ("docs.p.title", "任意の名前、最大 {max} 文字。リンクプレビューで自動生成の要約の代わりに使われます。")
    ∷ ("docs.p.language", "ハイライトのヒント。省略または不明な場合は読み込み時に自動判定します。")
    ∷ ("docs.p.expiresIn", "何秒後に削除するか。0 または省略で削除時刻なし。/api/config が公開する値のみ受け付けます。")
    ∷ ("docs.r.201", "作成しました。ボディにはペースト自体が含まれます。")
    ∷ ("docs.r.200", "ペースト。")
    ∷ ("docs.r.200config", "各種の制限。")
    ∷ ("docs.r.200stats", "全体の統計。")
    ∷ ("docs.r.200ok", "稼働中。")
    ∷ ("docs.r.200raw", "内容を text/plain で返します。")
    ∷ ("docs.r.200download", "内容を添付ファイルとして返します。")
    ∷ ("docs.r.400", "内容が空、形式が不正、または期限が一覧にありません。")
    ∷ ("docs.r.404", "そのコードは存在しないか、すでにありません。")
    ∷ ("docs.r.413", "文字数の上限を超えています。")
    ∷ ("docs.r.429", "レート制限に達しました。")
    ∷ ("docs.r.503", "書き込みキューが一杯です。")
    ∷ []
