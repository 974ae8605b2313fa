-- ===== src/I18n/Messages.antt =====
-- internal/i18n/messages.go: the table of translations.
use wish_operator.Common.{List, [], ◌∷◌, Str, str}

abbrev pub lang_en : Str
lang_en = str "en"

abbrev pub lang_ru : Str
lang_ru = str "ru"

abbrev pub lang_zh : Str
lang_zh = str "zh"

abbrev pub Table : Type 0
Table = List (Str × Str)

unfoldable pub english : Table
english =
    (str "page_title", str "Wishlist")
    ∷ (str "filter_label", str "Filter:")
    ∷ (str "filter_all", str "All")
    ∷ (str "empty_filtered", str "No wishes with tag")
    ∷ (str "empty_default", str "No wishes yet.")
    ∷ (str "buy_label", str "Buy:")
    ∷ (str "reserved_badge", str "Reserved")
    ∷ (str "reserved_until", str "until %s")
    ∷ (str "reserve_btn", str "Reserve")
    ∷ (str "weeks_format", str "weeks")
    ∷ (str "week_one", str "week")
    ∷ (str "quantity_label", str "Qty:")
    ∷ (str "available_label", str "Available:")
    ∷ (str "unlimited_label", str "Unlimited")
    ∷ (str "unlimited_available", str "Available: ∞")
    ∷ (str "reserved_count", str "%d reserved until %s")
    ∷ (str "err_list_wishes", str "Failed to list wishes")
    ∷ (str "err_render", str "Failed to render template")
    ∷ (str "err_missing_name", str "Missing wish name")
    ∷ (str "err_invalid_form", str "Invalid form data")
    ∷ (str "err_weeks_range", str "Weeks must be between %d and %d")
    ∷ (str "err_not_found", str "Wish not found")
    ∷ (str "err_get_wish", str "Failed to get wish")
    ∷ (str "err_already_reserved", str "Wish is already reserved")
    ∷ (str "err_reserve_failed", str "Failed to reserve wish")
    ∷ (str "err_rate_limit", str "Too many requests")
    ∷ (str "err_invalid_quantity", str "Invalid quantity")
    ∷ (str "err_fully_reserved", str "All items are reserved")
    ∷ (str "err_quantity_exceeds", str "Only %d available")
    ∷ []

unfoldable pub russian : Table
russian =
    (str "page_title", str "Список желаний")
    ∷ (str "filter_label", str "Фильтр:")
    ∷ (str "filter_all", str "Все")
    ∷ (str "empty_filtered", str "Нет желаний с тегом")
    ∷ (str "empty_default", str "Пока нет желаний.")
    ∷ (str "buy_label", str "Купить:")
    ∷ (str "reserved_badge", str "Зарезервировано")
    ∷ (str "reserved_until", str "до %s")
    ∷ (str "reserve_btn", str "Зарезервировать")
    ∷ (str "week_one", str "неделя")
    ∷ (str "weeks_few", str "недели")
    ∷ (str "weeks_many", str "недель")
    ∷ (str "weeks_format", str "недель")
    ∷ (str "quantity_label", str "Кол-во:")
    ∷ (str "available_label", str "Доступно:")
    ∷ (str "unlimited_label", str "Неограничено")
    ∷ (str "unlimited_available", str "Доступно: ∞")
    ∷ (str "reserved_count", str "%d зарезервировано до %s")
    ∷ (str "err_list_wishes", str "Не удалось загрузить список желаний")
    ∷ (str "err_render", str "Ошибка отображения")
    ∷ (str "err_missing_name", str "Не указано название")
    ∷ (str "err_invalid_form", str "Неверные данные формы")
    ∷ (str "err_weeks_range", str "Срок должен быть от %d до %d недель")
    ∷ (str "err_not_found", str "Желание не найдено")
    ∷ (str "err_get_wish", str "Не удалось получить желание")
    ∷ (str "err_already_reserved", str "Уже зарезервировано")
    ∷ (str "err_reserve_failed", str "Не удалось зарезервировать")
    ∷ (str "err_rate_limit", str "Слишком много запросов")
    ∷ (str "err_invalid_quantity", str "Неверное количество")
    ∷ (str "err_fully_reserved", str "Всё зарезервировано")
    ∷ (str "err_quantity_exceeds", str "Доступно только %d")
    ∷ []

unfoldable pub chinese : Table
chinese =
    (str "page_title", str "愿望清单")
    ∷ (str "filter_label", str "筛选：")
    ∷ (str "filter_all", str "全部")
    ∷ (str "empty_filtered", str "没有带有此标签的愿望")
    ∷ (str "empty_default", str "暂无愿望")
    ∷ (str "buy_label", str "购买：")
    ∷ (str "reserved_badge", str "已预订")
    ∷ (str "reserved_until", str "至 %s")
    ∷ (str "reserve_btn", str "预订")
    ∷ (str "weeks_format", str "周")
    ∷ (str "week_one", str "周")
    ∷ (str "quantity_label", str "数量：")
    ∷ (str "available_label", str "可用：")
    ∷ (str "unlimited_label", str "无限")
    ∷ (str "unlimited_available", str "可用：∞")
    ∷ (str "reserved_count", str "%d 已预订至 %s")
    ∷ (str "err_list_wishes", str "无法加载愿望列表")
    ∷ (str "err_render", str "渲染失败")
    ∷ (str "err_missing_name", str "缺少名称")
    ∷ (str "err_invalid_form", str "表单数据无效")
    ∷ (str "err_weeks_range", str "周数必须在%d到%d之间")
    ∷ (str "err_not_found", str "未找到愿望")
    ∷ (str "err_get_wish", str "获取愿望失败")
    ∷ (str "err_already_reserved", str "已被预订")
    ∷ (str "err_reserve_failed", str "预订失败")
    ∷ (str "err_rate_limit", str "请求过多")
    ∷ (str "err_invalid_quantity", str "数量无效")
    ∷ (str "err_fully_reserved", str "全部已预订")
    ∷ (str "err_quantity_exceeds", str "仅有 %d 件可用")
    ∷ []

unfoldable pub messages : List (Str × Table)
unfolding english russian chinese
messages = (lang_en, english) ∷ (lang_ru, russian) ∷ (lang_zh, chinese) ∷ []
